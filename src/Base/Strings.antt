-- ===== src/Base/Strings.antt =====
-- QString as the list of its UTF-16 code units, with the tests that the source makes.
use Prim.Native.Nat.{ℕ}
use Prim.Native.Char.{code}
use Prim.Native.String.{String}
use mathlib.Core.Bool.{Bool, true, false, ◌&&◌, ◌||◌}
use mathlib.Core.List.{List, [], ◌∷◌, ◌++◌}
use mathlib.Core.Path.{◌≡◌, refl}
use native.Mathlib.Omega.{arith}
use scrub_tub.Base.Tests.{◌==◌}

abbrev pub Text : Type 0
Text = List ℕ

-- A literal of the source, which is ASCII throughout.
abbrev pub codes : String → Text
codes String.[] = []
codes (String.◌∷◌ c s) = code c ∷ codes s

-- `t.isEmpty()`
abbrev pub is_empty : Text → Bool
is_empty [] = true
is_empty (c ∷ cs) = false

-- `a == b`
abbrev pub eq_text : Text → Text → Bool
eq_text [] [] = true
eq_text [] (b ∷ bs) = false
eq_text (a ∷ as') [] = false
eq_text (a ∷ as') (b ∷ bs) = a == b && eq_text as' bs

-- `t.startsWith(p)`
abbrev pub starts_with : Text → Text → Bool
starts_with t [] = true
starts_with [] (p ∷ ps) = false
starts_with (t ∷ ts) (p ∷ ps) = t == p && starts_with ts ps

-- `t.contains(p)`
abbrev pub contains : Text → Text → Bool
contains [] p = starts_with [] p
contains (t ∷ ts) p = starts_with (t ∷ ts) p || contains ts p

-- `list.contains(t)`
abbrev pub elem_text : Text → List Text → Bool
elem_text t [] = false
elem_text t (x ∷ xs) = eq_text x t || elem_text t xs

-- `list.join(sep)` for a separator of one unit
abbrev pub join : ℕ → List Text → Text
join sep [] = []
join sep (x ∷ []) = x
join sep (x ∷ y ∷ ys) = x ++ sep ∷ join sep (y ∷ ys)

pub eq_text→eq : (a b : Text) → eq_text a b ≡ true → a ≡ b
eq_text→eq [] [] h = refl
eq_text→eq [] (b ∷ bs) h = cc
eq_text→eq (a ∷ as') [] h = cc
eq_text→eq (a ∷ as') (b ∷ bs) h = ground (arith, eq_text→eq as' bs)

pub eq_text_refl : (a : Text) → eq_text a a ≡ true
eq_text_refl [] = refl
eq_text_refl (a ∷ as') = ground (arith, eq_text_refl as')
