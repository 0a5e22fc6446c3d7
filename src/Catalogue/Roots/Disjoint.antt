-- ===== src/Catalogue/Roots/Disjoint.antt =====
-- src/catalogue/Catalogue.cpp: when two roots of the catalogue overlap, and what addRoot does to them.
use scrub_tub.Base.{
  ◌≡◌, refl, sym, ap, subst, ◌∙◌, Bool, true, false, Option, none, some, List, [], ◌∷◌, ◌++◌, All,
  arith, Bool-cases, inl, inr, Option-cases, Text, codes, eq_text, eq_text_refl, starts_with, ◌⊎◌,
  ◌==◌,
}
use scrub_tub.Catalogue.{State, Root, RowIds, Signal, emits}
use scrub_tub.Catalogue.Scan.{Enumeration, start_scan}
use scrub_tub.Catalogue.Scan.Roots.{root_keys, start_scan-root_keys, run_enumeration-root_keys}
use scrub_tub.Catalogue.Roots.{FileInfo, is_nested, conflict, new_root, insert_root, add_root}

-- The second path lies below the first, which names its folder with or without a slash at its end.
abbrev pub Below : Text → Text → Type 0
Below a b =
    (folder : Text) × (rest : Text) × (b ≡ (folder ++ codes "/") ++ rest)
    × ((a ≡ folder) ⊎ (a ≡ folder ++ codes "/"))

abbrev pub Overlap : Text → Text → Type 0
Overlap a b = (a ≡ b) ⊎ (Below a b ⊎ Below b a)

-- No path is another one, nor lies below it.
abbrev pub AreApart : List Text → Type 0
AreApart [] = Unit {0}
AreApart (a ∷ as') = All (λ b. ¬ Overlap a b) as' × AreApart as'

abbrev pub ends_in_slash : Text → Bool
ends_in_slash [] = false
ends_in_slash (c ∷ []) = c == 47
ends_in_slash (c ∷ d ∷ cs) = ends_in_slash (d ∷ cs)

-- The paths are apart, and none ends in a slash.
abbrev pub IsDisjoint : List Text → Type 0
IsDisjoint l = AreApart l × All (λ a. ends_in_slash a ≡ false) l

ends_in_slash-append : (p : Text) → ends_in_slash (p ++ codes "/") ≡ true
ends_in_slash-append [] = refl
ends_in_slash-append (c ∷ []) = refl
ends_in_slash-append (c ∷ d ∷ cs) = ends_in_slash-append (d ∷ cs)

starts_with-append : (p r : Text) → starts_with (p ++ r) p ≡ true
starts_with-append [] [] = refl
starts_with-append [] (x ∷ r) = refl
starts_with-append (x ∷ p) r = ground (arith, starts_with-append p r)

Below-starts_with :
    (a b : Text) → ends_in_slash a ≡ false → Below a b → starts_with b (a ++ codes "/") ≡ true
Below-starts_with a b p (folder, r, e, inl same) =
    subst (λ t. starts_with b (t ++ codes "/") ≡ true) (sym same)
      (subst (λ t. starts_with t (folder ++ codes "/") ≡ true) (sym e)
        (starts_with-append (folder ++ codes "/") r))
Below-starts_with a b p (folder, r, e, inr slash) =
    absurd (ground (arith, p, ap ends_in_slash slash, ends_in_slash-append folder))

-- The tests of the source exclude every overlap.
tests-apart :
    (existing absolute : Text)
    → ends_in_slash existing ≡ false
    → ends_in_slash absolute ≡ false
    → eq_text existing absolute ≡ false
    → is_nested existing absolute ≡ false
    → ¬ Overlap existing absolute
tests-apart existing absolute p q e n (inl same) =
    absurd (ground (arith, e, subst (λ t. eq_text existing t ≡ true) same (eq_text_refl existing)))
tests-apart existing absolute p q e n (inr (inl b)) =
    absurd (ground (arith, n, Below-starts_with existing absolute p b))
tests-apart existing absolute p q e n (inr (inr b)) =
    absurd (ground (arith, n, Below-starts_with absolute existing q b))

conflict-apart :
    (absolute : Text) (rs : List Root)
    → ends_in_slash absolute ≡ false
    → All (λ a. ends_in_slash a ≡ false) (root_keys rs)
    → conflict absolute rs ≡ none
    → All (λ a. ¬ Overlap a absolute) (root_keys rs)
unfolding conflict
conflict-apart absolute [] q p h = tt
conflict-apart absolute (r ∷ rs) q p h = elim (Bool-cases (eq_text r.cmp_key absolute)) [
  | inl e ↦ absurd (ground (arith, e))
  | inr e ↦ elim (Bool-cases (is_nested r.cmp_key absolute)) [
    | inl n ↦ absurd (ground (arith, e, n))
    | inr n ↦ (
      tests-apart r.cmp_key absolute p.0 q e n,
      conflict-apart absolute rs q p.1 (ground (arith, e, n)),
    )
  ]
]

All-snoc : (P : Text → Type 0) (l : List Text) (b : Text) → All P l → P b → All P (l ++ b ∷ [])
All-snoc P [] b h k = (k, tt)
All-snoc P (a ∷ l) b h k = (h.0, All-snoc P l b h.1 k)

append_one-AreApart :
    (l : List Text) (b : Text) → AreApart l → All (λ a. ¬ Overlap a b) l → AreApart (l ++ b ∷ [])
append_one-AreApart [] b h k = (tt, tt)
append_one-AreApart (a ∷ l) b h k =
    (All-snoc (λ c. ¬ Overlap a c) l b h.0 k.0, append_one-AreApart l b h.1 k.1)

root_keys-append_one :
    (rs : List Root) (r : Root) → root_keys (rs ++ r ∷ []) ≡ root_keys rs ++ r.cmp_key ∷ []
root_keys-append_one [] r = refl
root_keys-append_one (q ∷ rs) r = ap (λ l. q.cmp_key ∷ l) (root_keys-append_one rs r)

append_one-IsDisjoint :
    (l : List Text) (b : Text)
    → IsDisjoint l
    → All (λ a. ¬ Overlap a b) l
    → ends_in_slash b ≡ false
    → IsDisjoint (l ++ b ∷ [])
append_one-IsDisjoint l b h k p =
    (append_one-AreApart l b h.0 k, All-snoc (λ a. ends_in_slash a ≡ false) l b h.1 p)

insert_root-IsDisjoint :
    (ids : RowIds) (absolute : Text) (include_hidden : Bool) (failure : Option Text)
    (e : Enumeration) (s : State)
    → ends_in_slash absolute ≡ false
    → conflict absolute s.roots ≡ none
    → IsDisjoint (root_keys s.roots)
    → IsDisjoint (root_keys (insert_root ids absolute include_hidden failure e s).roots)
unfolding insert_root
insert_root-IsDisjoint ids absolute include_hidden (some m) e s p c h = h
insert_root-IsDisjoint ids absolute include_hidden none e s p c h =
    let r = new_root ids absolute include_hidden s.roots in
    let t = emits (Signal.root_added r.id) (record s { roots = s.roots ++ r ∷ [] }) in
    subst IsDisjoint
      (sym (
        run_enumeration-root_keys ids r.id false e (start_scan r.id false t)
        ∙ start_scan-root_keys r.id false t
        ∙ root_keys-append_one s.roots r))
      (append_one-IsDisjoint (root_keys s.roots) absolute h
        (conflict-apart absolute s.roots p h.1 c) p)

-- Where no path of a root ends in a slash and none is another one or lies below it, this holds
-- behind addRoot too, whether it takes the folder or rejects it, and whatever the scan of the folder
-- finds, if the path of the folder does not end in a slash.
pub add_root-IsDisjoint :
    (ids : RowIds) (f : FileInfo) (include_hidden : Bool) (failure : Option Text) (e : Enumeration)
    (s : State)
    → ends_in_slash f.absolute ≡ false
    → IsDisjoint (root_keys s.roots)
    → IsDisjoint (root_keys (add_root ids f include_hidden failure e s).roots)
unfolding add_root
add_root-IsDisjoint ids f include_hidden failure e s p h = elim (Bool-cases f.is_directory) [
  | inr d ↦ rw d h
  | inl d ↦ elim (Bool-cases f.is_link) [
    | inl l ↦ rw (d, l) h
    | inr l ↦ elim (Option-cases (conflict f.absolute s.roots)) [
      | inl c ↦
          rw (d, l, c) (insert_root-IsDisjoint ids f.absolute include_hidden failure e s p c h)
      | inr (m, c) ↦ rw (d, l, c) h
    ]
  ]
]
