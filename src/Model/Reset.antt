-- ===== src/Model/Reset.antt =====
-- A reset of the list model: the order afterwards is the name order of the rows' ids.
use mathlib.Core.List.{append-nil, append_assoc}
use scrub_tub.Base.{
  ℕ, ◌+◌, ◌≡◌, refl, sym, ◌∙◌, Bool, true, false, ◌||◌, none, some, List, [], ◌∷◌, ◌++◌, arith,
  ◌==◌, elem, Distinct, update, Text,
}
use scrub_tub.Row.{VideoRow}
use scrub_tub.Model.{
  Model, insert_sorted, sort, store_rows, rebuild_positions, reset_rows, by_name, apply_rows,
}
use scrub_tub.Model.Invariant.{IsConsistent, rebuild_positions-placed}

abbrev pub row_ids : List VideoRow → List ℕ
row_ids [] = []
row_ids (r ∷ rs) = r.id ∷ row_ids rs

-- No element is below the one before it.
abbrev pub IsSorted : (ℕ → ℕ → Bool) → List ℕ → Type 0
IsSorted lt [] = Unit {0}
IsSorted lt (x ∷ []) = Unit {0}
IsSorted lt (x ∷ y ∷ l) = (lt y x ≡ false) × IsSorted lt (y ∷ l)

store_rows-order :
    (rs : List VideoRow) (m : Model) → (store_rows rs m).order ≡ m.order ++ row_ids rs
unfolding store_rows
store_rows-order [] m = sym (append-nil m.order)
store_rows-order (r ∷ rs) m = store_rows-order rs _ ∙ append_assoc m.order (r.id ∷ []) (row_ids rs)

store_rows-order_set :
    (rs : List VideoRow) (m : Model) (id : ℕ)
    → (store_rows rs m).order_set id ≡ (m.order_set id || elem id (row_ids rs))
unfolding store_rows
store_rows-order_set [] m id = ground arith
store_rows-order_set (r ∷ rs) m id = ground (
  arith,
  store_rows-order_set rs
      (record m {
        rows = update r.id (some r) m.rows;
        order = m.order ++ r.id ∷ [];
        order_set = update r.id true m.order_set;
      })
      id,
)

store_rows-missing_cursor :
    (rs : List VideoRow) (m : Model) → (store_rows rs m).missing_cursor ≡ m.missing_cursor
unfolding store_rows
store_rows-missing_cursor [] m = refl
store_rows-missing_cursor (r ∷ rs) m = store_rows-missing_cursor rs _

module _ (lt : ℕ → ℕ → Bool) where
  elem-insert_sorted : (a x : ℕ) (l : List ℕ) → elem a (insert_sorted lt x l) ≡ (x == a || elem a l)
  unfolding insert_sorted
  elem-insert_sorted a x [] = refl
  elem-insert_sorted a x (y ∷ l) = ground (arith, elem-insert_sorted a x l)

  Distinct-insert_sorted :
      (x : ℕ) (l : List ℕ) → elem x l ≡ false → Distinct l → Distinct (insert_sorted lt x l)
  unfolding insert_sorted
  Distinct-insert_sorted x [] h d = (refl, tt)
  Distinct-insert_sorted x (y ∷ l) h d =
      ground (arith, elem-insert_sorted y x l, Distinct-insert_sorted x l)

  pub elem-sort : (a : ℕ) (l : List ℕ) → elem a (sort lt l) ≡ elem a l
  unfolding sort
  elem-sort a [] = refl
  elem-sort a (x ∷ l) = ground (arith, elem-insert_sorted a x (sort lt l), elem-sort a l)

  pub Distinct-sort : (l : List ℕ) → Distinct l → Distinct (sort lt l)
  unfolding sort
  Distinct-sort [] d = tt
  Distinct-sort (x ∷ l) d =
      Distinct-insert_sorted x (sort lt l) (elem-sort x l ∙ d.0) (Distinct-sort l d.1)

  module _ (asym : (a b : ℕ) → lt a b ≡ true → lt b a ≡ false) where
    insert_sorted-IsSorted :
        (x : ℕ) (l : List ℕ) → IsSorted lt l → IsSorted lt (insert_sorted lt x l)
    unfolding insert_sorted
    insert_sorted-IsSorted x [] s = tt
    insert_sorted-IsSorted x (y ∷ []) s = ground (arith, asym x y)
    insert_sorted-IsSorted x (y ∷ z ∷ l) s =
        ground (arith, asym x y, insert_sorted-IsSorted x (z ∷ l) s.1)

    pub sort-IsSorted : (l : List ℕ) → IsSorted lt (sort lt l)
    unfolding sort
    sort-IsSorted [] = tt
    sort-IsSorted (x ∷ l) = insert_sorted-IsSorted x (sort lt l) (sort-IsSorted l)

abbrev cleared : Model → Model
cleared m = record m {
  generation = m.generation + 1;
  requested_details = λ _. false;
  rows = λ _. none;
  order = [];
  order_set = λ _. false;
  missing_cursor = 0;
}

module _ (before : Text → Text → Bool) (rs : List VideoRow) (m : Model) where
  abbrev sorted : Model
  sorted =
      let stored = store_rows rs (cleared m) in
      record stored { order = sort (by_name before stored.rows) stored.order }

  sorted-Distinct : Distinct (row_ids rs) → Distinct sorted.order
  sorted-Distinct d = Distinct-sort _ _ (rw (store_rows-order rs (cleared m)) d)

  sorted-elem : (id : ℕ) → elem id sorted.order ≡ elem id (row_ids rs)
  sorted-elem id =
      elem-sort _ id (store_rows rs (cleared m)).order ∙ rw (store_rows-order rs (cleared m))

  reset_rows-IsConsistent : Distinct (row_ids rs) → IsConsistent (reset_rows before rs m)
  unfolding reset_rows rebuild_positions
  reset_rows-IsConsistent d =
      let start = store_rows-missing_cursor rs (cleared m) in
      record {
        distinct = sorted-Distinct d;
        mirrored = λ id. store_rows-order_set rs (cleared m) id ∙ sym (sorted-elem id);
        placed = λ _. rebuild_positions-placed sorted (sorted-Distinct d);
        bounded = omega (arith, start);
        accounted = rw start tt;
      }

  -- After a reset with rows of distinct ids the model is consistent, shows exactly those ids, and
  -- shows them in the name order; `before` never holds both ways round.
  pub apply_rows-reset :
      Distinct (row_ids rs)
      → ((a b : Text) → before a b ≡ true → before b a ≡ false)
      → let m' = apply_rows before rs true m in
        IsConsistent m'
        × ((id : ℕ) → elem id m'.order ≡ elem id (row_ids rs))
        × IsSorted (by_name before m'.rows) m'.order
  unfolding apply_rows reset_rows rebuild_positions
  apply_rows-reset d asym = (
    reset_rows-IsConsistent d,
    sorted-elem,
    sort-IsSorted _ (λ a b. asym _ _) (store_rows rs (cleared m)).order,
  )
