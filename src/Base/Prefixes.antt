-- ===== src/Base/Prefixes.antt =====
-- A list cut at a position: what the element after the cut says of both parts.
use Prim.Native.Nat.{ℕ, zero, suc, ◌+◌, ◌≤◌, ◌<◌}
use mathlib.Core.Bool.{true}
use mathlib.Core.List.{List, [], ◌∷◌}
use mathlib.Core.Path.{◌≡◌}
use native.Mathlib.Numerals.{add-one}
use native.Mathlib.Omega.{arith}
use scrub_tub.Base.Lists.{length, take, drop, elem, All}

module _ {ℓ} {A : Type ℓ} where
  pub drop_lt : (n : ℕ) (l : List A) (x : A) (r : List A) → drop n l ≡ x ∷ r → n < length l
  drop_lt zero [] x r e = cc
  drop_lt zero (y ∷ l) x r e = omega arith
  drop_lt (suc n) [] x r e = cc
  drop_lt (suc n) (y ∷ l) x r e = omega (arith, drop_lt n l x r e)

  pub drop_nil : (n : ℕ) (l : List A) → drop n l ≡ [] → length l ≤ n
  drop_nil zero [] e = omega arith
  drop_nil zero (y ∷ l) e = cc
  drop_nil (suc n) [] e = omega arith
  drop_nil (suc n) (y ∷ l) e = omega (arith, drop_nil n l e)

  drop-suc' : (n : ℕ) (l : List A) (x : A) (r : List A) → drop n l ≡ x ∷ r → drop (suc n) l ≡ r
  drop-suc' zero [] x r e = cc
  drop-suc' zero (y ∷ l) x r e = cc
  drop-suc' (suc n) [] x r e = cc
  drop-suc' (suc n) (y ∷ l) x r e = drop-suc' n l x r e

  pub drop-suc : (n : ℕ) (l : List A) (x : A) (r : List A) → drop n l ≡ x ∷ r → drop (n + 1) l ≡ r
  drop-suc n l x r e = rw add-one (drop-suc' n l x r e)

  All-take-suc' {κ} :
      (P : A → Type κ) (n : ℕ) (l : List A) (x : A) (r : List A)
      → drop n l ≡ x ∷ r
      → P x
      → All P (take n l)
      → All P (take (suc n) l)
  All-take-suc' P zero [] x r e p a = tt
  All-take-suc' P zero (y ∷ l) x r e p a = let same : x ≡ y = cc in (rw (← same) p, tt)
  All-take-suc' P (suc n) [] x r e p a = tt
  All-take-suc' P (suc n) (y ∷ l) x r e p a = (a.0, All-take-suc' P n l x r e p a.1)

  pub All-take-suc {κ} :
      (P : A → Type κ) (n : ℕ) (l : List A) (x : A) (r : List A)
      → drop n l ≡ x ∷ r
      → P x
      → All P (take n l)
      → All P (take (n + 1) l)
  All-take-suc P n l x r e p a = rw add-one (All-take-suc' P n l x r e p a)

pub elem-drop : (n : ℕ) (l : List ℕ) (x : ℕ) (r : List ℕ) → drop n l ≡ x ∷ r → elem x l ≡ true
elem-drop zero [] x r e = cc
elem-drop zero (y ∷ l) x r e = ground arith
elem-drop (suc n) [] x r e = cc
elem-drop (suc n) (y ∷ l) x r e = ground (arith, elem-drop n l x r e)
