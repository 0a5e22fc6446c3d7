-- ===== src/Base/Texts.antt =====
-- Lists of strings without repetition, as `if (!list.contains(t)) list.append(t)` builds them.
use mathlib.Core.Bool.{true, false, ◌||◌}
use mathlib.Core.List.{List, [], ◌∷◌, ◌++◌}
use mathlib.Core.Logic.{inl, inr}
use mathlib.Core.Path.{◌≡◌, refl, sym, subst, ◌∙◌}
use native.Mathlib.Omega.{arith}
use scrub_tub.Base.Tests.{if◌then◌else◌, Bool-cases}
use scrub_tub.Base.Strings.{Text, eq_text, elem_text, eq_text→eq}

abbrev pub append_new : Text → List Text → List Text
append_new t ts = if elem_text t ts then ts else ts ++ t ∷ []

-- No text stands twice.
abbrev pub DistinctTexts : List Text → Type 0
DistinctTexts [] = Unit {0}
DistinctTexts (t ∷ ts) = (elem_text t ts ≡ false) × DistinctTexts ts

pub elem_text-append :
    (t : Text) (xs ys : List Text) → elem_text t (xs ++ ys) ≡ (elem_text t xs || elem_text t ys)
elem_text-append t [] ys = refl
elem_text-append t (x ∷ xs) ys = ground (arith, elem_text-append t xs ys)

pub eq_text_comm : (a b : Text) → eq_text a b ≡ eq_text b a
eq_text_comm a b = elim (Bool-cases (eq_text a b)) [
  | inl e ↦ rw (eq_text→eq a b e) refl
  | inr e ↦ elim (Bool-cases (eq_text b a)) [
    | inl f ↦ rw (eq_text→eq b a f) refl
    | inr f ↦ e ∙ sym f
  ]
]

pub elem_text-append_new :
    (t x : Text) (ts : List Text) → elem_text t (append_new x ts) ≡ (elem_text t ts || eq_text x t)
elem_text-append_new t x ts = elim (Bool-cases (elem_text x ts)) [
  | inl e ↦ elim (Bool-cases (eq_text x t)) [
    | inl same ↦ ground (arith, e, same, subst (λ z. elem_text z ts ≡ true) (eq_text→eq x t same) e)
    | inr other ↦ ground (arith, e, other)
  ]
  | inr e ↦ ground (arith, e, elem_text-append t ts (x ∷ []))
]

append-DistinctTexts :
    (x : Text) (ts : List Text)
    → elem_text x ts ≡ false
    → DistinctTexts ts
    → DistinctTexts (ts ++ x ∷ [])
append-DistinctTexts x [] h d = (refl, tt)
append-DistinctTexts x (t ∷ ts) h d = (
  ground (arith, elem_text-append t ts (x ∷ []), d.0, eq_text_comm t x),
  append-DistinctTexts x ts (ground arith) d.1,
)

pub append_new-DistinctTexts :
    (x : Text) (ts : List Text) → DistinctTexts ts → DistinctTexts (append_new x ts)
append_new-DistinctTexts x ts d = elim (Bool-cases (elem_text x ts)) [
  | inl e ↦ rw (e, append_new) d
  | inr e ↦ rw (e, append_new) (append-DistinctTexts x ts e d)
]
