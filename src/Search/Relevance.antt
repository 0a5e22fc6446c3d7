-- ===== src/Search/Relevance.antt =====
-- The comparison that `std::sort` is given orders the hits.
use scrub_tub.Base.{
  ◌≡◌, Bool, true, false, ◌&&◌, ◌||◌, not, arith, ltb, ◌==◌, if◌then◌else◌, ℤ, pos, ltb_ℤ, Text, ap,
}
use scrub_tub.Search.{Candidate, before_by_name, more_relevant}

module _ (compare : Text → Text → ℤ) where
  abbrev pub is_less : Text → Text → Bool
  is_less s t = ltb_ℤ (compare s t) (pos 0)

  abbrev pub is_greater : Text → Text → Bool
  is_greater s t = ltb_ℤ (pos 0) (compare s t)

  -- The lexicographic order of two tests, of which the second is read on ties.
  abbrev lexical : Bool → Bool → Bool → Bool
  lexical less greater rest = if less || greater then less else rest

  module _ (flip : (s t : Text) → is_greater s t ≡ is_less t s)
      (trans : (s t r : Text) → is_less s t ≡ true → is_less t r ≡ true → is_less s r ≡ true)
      (same : (s t : Text) → is_less s t ≡ false → is_greater s t ≡ false → s ≡ t) where
    lexical_trans :
        (ab ba bc cb ac ca i j l : Bool)
        → (ab ≡ true → bc ≡ true → ac ≡ true)
        → (ab ≡ false → ba ≡ false → ac ≡ bc)
        → (ab ≡ false → ba ≡ false → ca ≡ cb)
        → (bc ≡ false → cb ≡ false → ab ≡ ac)
        → (i ≡ true → j ≡ true → l ≡ true)
        → lexical ab ba i ≡ true
        → lexical bc cb j ≡ true
        → lexical ac ca l ≡ true
    lexical_trans ab ba bc cb ac ca i j l f g g' h m p q = ground (arith, f, g, g', h, m)

    before_by_name_trans :
        (a b c : Candidate)
        → before_by_name compare a b ≡ true
        → before_by_name compare b c ≡ true
        → before_by_name compare a c ≡ true
    unfolding before_by_name
    before_by_name_trans a b c h k =
        let x = a.norm_name in
        let y = b.norm_name in
        let z = c.norm_name in
        lexical_trans (is_less x y) (is_greater x y) (is_less y z) (is_greater y z) (is_less x z)
          (is_greater x z) (ltb a.id b.id) (ltb b.id c.id) (ltb a.id c.id) (trans x y z)
          (λ e f. ap (λ w. is_less w z) (same x y e f))
          (λ e f. ap (λ w. is_greater w z) (same x y e f))
          (λ e f. ap (λ w. is_less x w) (same y z e f)) (λ i j. ground (arith, i, j)) h k

    before_by_name_asym :
        (a b : Candidate) → (before_by_name compare a b && before_by_name compare b a) ≡ false
    unfolding before_by_name
    before_by_name_asym a b =
        ground (arith, flip a.norm_name b.norm_name, flip b.norm_name a.norm_name)

    before_by_name_total :
        (a b : Candidate)
        → (before_by_name compare a b || (before_by_name compare b a || a.id == b.id)) ≡ true
    unfolding before_by_name
    before_by_name_total a b =
        ground (arith, flip a.norm_name b.norm_name, flip b.norm_name a.norm_name)

    -- For a comparison of texts that is an order, the order of the hits is a strict total order, as
    -- `std::sort` requires: no two hits precede each other, of two hits with different ids one
    -- precedes the other, and it is transitive.
    pub more_relevant-order :
        (a b c : Candidate)
        → ((more_relevant compare a b && more_relevant compare b a) ≡ false)
          × (((more_relevant compare a b || (more_relevant compare b a || a.id == b.id)) ≡ true)
              × ((not (more_relevant compare a b && more_relevant compare b c)
                    || more_relevant compare a c)
                  ≡ true))
    unfolding more_relevant
    more_relevant-order a b c = (
      ground (arith, before_by_name_asym a b),
      (ground (arith, before_by_name_total a b), ground (arith, before_by_name_trans a b c)),
    )
