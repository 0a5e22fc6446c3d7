-- ===== src/Base/Edits.antt =====
-- Insertion and removal at a position, and what they do to membership, positions and prefixes.
use Prim.Native.Nat.{ℕ, zero, suc, ◌+◌, ◌-◌, ◌≤◌, ◌<◌}
use mathlib.Core.Bool.{true, false}
use mathlib.Core.List.{List, [], ◌∷◌}
use mathlib.Core.Logic.{inl, inr}
use mathlib.Core.Option.{none, some}
use mathlib.Core.Path.{◌≡◌, refl}
use native.Mathlib.Numerals.{add-one}
use native.Mathlib.Omega.{arith}
use scrub_tub.Base.Tests.{◌==◌, if◌then◌else◌, Bool-cases, leb, leb→le, ltb, ltb→lt, ltb→le}
use scrub_tub.Base.Lists.{length, get_elem?, take, elem, Distinct, index_of, All}

module _ {ℓ} {A : Type ℓ} where
  -- `list.insert(i, x)`
  abbrev pub insert_at : ℕ → A → List A → List A
  insert_at zero x l = x ∷ l
  insert_at (suc i) x [] = x ∷ []
  insert_at (suc i) x (y ∷ l) = y ∷ insert_at i x l

  -- `list.removeAt(i)`
  abbrev pub remove_at : ℕ → List A → List A
  remove_at i [] = []
  remove_at zero (y ∷ l) = l
  remove_at (suc i) (y ∷ l) = y ∷ remove_at i l

  pub length-insert_at : (i : ℕ) (x : A) (l : List A) → length (insert_at i x l) ≡ suc (length l)
  length-insert_at zero x l = refl
  length-insert_at (suc i) x [] = refl
  length-insert_at (suc i) x (y ∷ l) = omega (arith, length-insert_at i x l)

  pub length-remove_at :
      (i : ℕ) (l : List A) → i < length l → suc (length (remove_at i l)) ≡ length l
  length-remove_at i [] h = absurd (omega arith)
  length-remove_at zero (y ∷ l) h = refl
  length-remove_at (suc i) (y ∷ l) h = omega (arith, length-remove_at i l)

  pub take-insert_at_le {κ} :
      (P : A → Type κ) (i n : ℕ) (x : A) (l : List A)
      → i ≤ n
      → P x
      → All P (take n l)
      → All P (take (suc n) (insert_at i x l))
  take-insert_at_le P zero n x l h p a = (p, a)
  take-insert_at_le P (suc i) zero x l h p a = absurd (omega arith)
  take-insert_at_le P (suc i) (suc n) x [] h p a = (p, tt)
  take-insert_at_le P (suc i) (suc n) x (y ∷ l) h p a =
      (a.0, take-insert_at_le P i n x l (omega arith) p a.1)

  pub take-insert_at_lt {κ} :
      (P : A → Type κ) (i n : ℕ) (x : A) (l : List A)
      → n < i
      → i ≤ length l
      → All P (take n l)
      → All P (take n (insert_at i x l))
  take-insert_at_lt P i zero x l h b a = tt
  take-insert_at_lt P zero (suc n) x l h b a = absurd (omega arith)
  take-insert_at_lt P (suc i) (suc n) x [] h b a = absurd (omega arith)
  take-insert_at_lt P (suc i) (suc n) x (y ∷ l) h b a =
      (a.0, take-insert_at_lt P i n x l (omega arith) (omega arith) a.1)

  -- A boundary at `n` moves with an insertion at or before it.
  pub take-insert_at {κ} :
      (P : A → Type κ) (i n : ℕ) (x : A) (l : List A)
      → i ≤ length l
      → P x
      → All P (take n l)
      → All P (take (if leb i n then n + 1 else n) (insert_at i x l))
  take-insert_at P i n x l b p a = elim (Bool-cases (leb i n)) [
    | inl e ↦ rw (e, add-one) (take-insert_at_le P i n x l (leb→le i n e) p a)
    | inr e ↦ rw e (take-insert_at_lt P i n x l (ground arith) b a)
  ]

  pub take-remove_at_lt {κ} :
      (P : A → Type κ) (i n : ℕ) (l : List A)
      → i < suc n
      → All P (take (suc n) l)
      → All P (take n (remove_at i l))
  take-remove_at_lt P i zero l h a = tt
  take-remove_at_lt P i (suc n) [] h a = tt
  take-remove_at_lt P zero (suc n) (y ∷ l) h a = a.1
  take-remove_at_lt P (suc i) (suc n) (y ∷ l) h a =
      (a.0, take-remove_at_lt P i n l (omega arith) a.1)

  pub take-remove_at_le {κ} :
      (P : A → Type κ) (i n : ℕ) (l : List A)
      → n ≤ i
      → All P (take n l)
      → All P (take n (remove_at i l))
  take-remove_at_le P i zero l h a = tt
  take-remove_at_le P i (suc n) [] h a = tt
  take-remove_at_le P zero (suc n) (y ∷ l) h a = absurd (omega arith)
  take-remove_at_le P (suc i) (suc n) (y ∷ l) h a =
      (a.0, take-remove_at_le P i n l (omega arith) a.1)

-- A boundary at `n` moves with a removal before it.
pub take-remove_at {κ} :
    (P : ℕ → Type κ) (i n : ℕ) (l : List ℕ)
    → All P (take n l)
    → All P (take (if ltb i n then n - 1 else n) (remove_at i l))
take-remove_at P i zero l a = ground arith
take-remove_at P i (suc n) l a = elim (Bool-cases (ltb i (suc n))) [
  | inl e ↦
      let e' : suc n - 1 ≡ n = omega arith in
      rw (e, e') (take-remove_at_lt P i n l (ltb→lt i (suc n) e) a)
  | inr e ↦ rw e (take-remove_at_le P i (suc n) l (ltb→le i (suc n) e) a)
]

pub elem-insert_at :
    (i x a : ℕ) (l : List ℕ) → elem a (insert_at i x l) ≡ (if x == a then true else elem a l)
elem-insert_at zero x a l = ground arith
elem-insert_at (suc i) x a [] = ground arith
elem-insert_at (suc i) x a (y ∷ l) = ground (arith, elem-insert_at i x a l)

pub Distinct-insert_at :
    (i x : ℕ) (l : List ℕ) → elem x l ≡ false → Distinct l → Distinct (insert_at i x l)
Distinct-insert_at zero x l h d = (h, d)
Distinct-insert_at (suc i) x [] h d = (refl, tt)
Distinct-insert_at (suc i) x (y ∷ l) h d =
    (ground (arith, elem-insert_at i x y l), Distinct-insert_at i x l (ground arith) d.1)

-- Removing at the position of `x` removes `x`, and nothing else.
pub elem-remove_at :
    (i x a : ℕ) (l : List ℕ)
    → Distinct l
    → index_of x l ≡ some i
    → elem a (remove_at i l) ≡ (if x == a then false else elem a l)
elem-remove_at i x a [] d h = cc
elem-remove_at zero x a (y ∷ l) d h = ground arith
elem-remove_at (suc i) x a (y ∷ l) d h = ground (arith, elem-remove_at i x a l d.1)

elem-remove_at_sub : (i a : ℕ) (l : List ℕ) → elem a l ≡ false → elem a (remove_at i l) ≡ false
elem-remove_at_sub i a [] h = refl
elem-remove_at_sub zero a (y ∷ l) h = ground arith
elem-remove_at_sub (suc i) a (y ∷ l) h = ground (arith, elem-remove_at_sub i a l)

pub Distinct-remove_at : (i : ℕ) (l : List ℕ) → Distinct l → Distinct (remove_at i l)
Distinct-remove_at i [] d = tt
Distinct-remove_at zero (y ∷ l) d = d.1
Distinct-remove_at (suc i) (y ∷ l) d = (elem-remove_at_sub i y l d.0, Distinct-remove_at i l d.1)

pub get_elem?-index_of :
    (a : ℕ) (l : List ℕ) (i : ℕ) → index_of a l ≡ some i → get_elem? l i ≡ some a
get_elem?-index_of a [] i h = cc
get_elem?-index_of a (y ∷ l) zero h = ground arith
get_elem?-index_of a (y ∷ l) (suc i) h = ground (arith, get_elem?-index_of a l i)

pub index_of-lt : (a : ℕ) (l : List ℕ) (i : ℕ) → index_of a l ≡ some i → i < length l
index_of-lt a [] i h = cc
index_of-lt a (y ∷ l) zero h = omega arith
index_of-lt a (y ∷ l) (suc i) h = ground (arith, index_of-lt a l i)

pub index_of-elem : (a : ℕ) (l : List ℕ) → elem a l ≡ true → (i : ℕ) × (index_of a l ≡ some i)
index_of-elem a [] h = cc
index_of-elem a (y ∷ l) h = elim (Bool-cases (y == a)) [
  | inl here ↦ (0, rw here)
  | inr there ↦ let (i, e) = index_of-elem a l (ground arith) in (suc i, rw (there, e))
]

pub index_of_not : (a : ℕ) (l : List ℕ) → elem a l ≡ false → index_of a l ≡ none
index_of_not a [] h = refl
index_of_not a (y ∷ l) h = ground (arith, index_of_not a l)

pub index_of-none : (a : ℕ) (l : List ℕ) → index_of a l ≡ none → elem a l ≡ false
index_of-none a [] h = refl
index_of-none a (y ∷ l) h = ground (arith, index_of-none a l)
