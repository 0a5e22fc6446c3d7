-- ===== src/Profile/Confined.antt =====
-- src/app/ProfilePaths.cpp: what the cleaned id of a profile can hold.
use scrub_tub.Base.{
  ℕ, ◌≡◌, refl, Bool, true, false, ◌&&◌, not, [], ◌∷◌, arith, ◌==◌, elem, Text, contains, codes,
}
use scrub_tub.Profile.{remove_unit, remove_dots, clean_id}

contains-remove_dots :
    (held : Bool) (t : Text) → contains (remove_dots held t) (46 ∷ 46 ∷ []) ≡ false
unfolding remove_dots
contains-remove_dots true [] = refl
contains-remove_dots false [] = refl
contains-remove_dots held (c ∷ cs) = ground (arith, contains-remove_dots (c == 46 && not held) cs)

elem-remove_dots :
    (x : ℕ) (held : Bool) (t : Text) → (x == 46) ≡ false → elem x (remove_dots held t) ≡ elem x t
unfolding remove_dots
elem-remove_dots x true [] h = ground arith
elem-remove_dots x false [] h = refl
elem-remove_dots x held (c ∷ cs) h = ground (arith, elem-remove_dots x (c == 46 && not held) cs h)

elem-remove_unit : (x c : ℕ) (t : Text) → elem x (remove_unit c t) ≡ (not (x == c) && elem x t)
unfolding remove_unit
elem-remove_unit x c [] = ground arith
elem-remove_unit x c (d ∷ t) = ground (arith, elem-remove_unit x c t)

-- Whatever the id of a profile is, what names its directory has neither a slash nor a backslash nor
-- two dots in a row.
pub clean_id-confined :
    (id : Text)
    → (elem 47 (clean_id id) ≡ false)
      × ((elem 92 (clean_id id) ≡ false) × (contains (clean_id id) (codes "..") ≡ false))
unfolding clean_id
clean_id-confined id =
    let slashed = remove_unit 47 id in
    (
      ground (
        arith,
        elem-remove_dots 47 false (remove_unit 92 slashed) refl,
        elem-remove_unit 47 92 slashed,
        elem-remove_unit 47 47 id,
      ),
      (
        ground (
          arith,
          elem-remove_dots 92 false (remove_unit 92 slashed) refl,
          elem-remove_unit 92 92 slashed,
        ),
        contains-remove_dots false (remove_unit 92 slashed),
      ),
    )
