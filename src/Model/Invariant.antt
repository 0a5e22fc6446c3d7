-- ===== src/Model/Invariant.antt =====
-- The invariant of the list model, and that every change of the rows keeps it.
use scrub_tub.Base.{
  ℕ, zero, suc, ◌+◌, ◌-◌, ◌/◌, ◌≤◌, ◌≡◌, refl, sym, ap, ◌∙◌, inl, inr, Bool, true, false, ◌||◌, not,
  Option, none, some, List, [], ◌∷◌, arith, ◌==◌, is_some, length, take, elem, index_of, Distinct,
  All, All-map, Bool-cases, index_of_not, update, length-insert_at, elem-insert_at,
  Distinct-insert_at, take-insert_at, get_elem?, get_elem?-index_of, index_of-elem, Text,
}
use scrub_tub.Row.{VideoRow}
use scrub_tub.Model.{
  Model, insert_positions, rebuild_positions, ready_for, update_row, insert_row, apply_row,
  apply_each, lower_bound, search_from, by_name, Signal, emits, announce, apply_rows,
}

-- The details of `id` are here, or have been asked for in this generation.
abbrev pub is_accounted : Model → ℕ → Bool
is_accounted m id = is_some (m.rows id) || m.requested_details id

pub record IsConsistent (m : Model) : Type 0 where
  pub distinct : Distinct m.order
  pub mirrored : (id : ℕ) → m.order_set id ≡ elem id m.order
  pub placed : m.pos_dirty ≡ false → (id : ℕ) → m.positions id ≡ index_of id m.order
  pub bounded : m.missing_cursor ≤ length m.order
  pub accounted : All (λ id. is_accounted m id ≡ true) (take m.missing_cursor m.order)

abbrev shifted : ℕ → Option ℕ → Option ℕ → Option ℕ
shifted i none d = d
shifted i (some k) d = some (i + k)

insert_positions-index_of :
    (i : ℕ) (l : List ℕ) (p : ℕ → Option ℕ) (id : ℕ)
    → Distinct l
    → insert_positions i l p id ≡ shifted i (index_of id l) (p id)
unfolding insert_positions
insert_positions-index_of i [] p id d = refl
insert_positions-index_of i (x ∷ l) p id d =
    let ih = insert_positions-index_of (i + 1) l (update x (some i) p) id d.1 in
    ground (arith, ih, index_of_not id l)

shifted_zero : (o : Option ℕ) → shifted 0 o none ≡ o
shifted_zero none = refl
shifted_zero (some k) = ground arith

pub rebuild_positions-placed :
    (m : Model)
    → Distinct m.order
    → (id : ℕ) → (rebuild_positions m).positions id ≡ index_of id m.order
unfolding rebuild_positions
rebuild_positions-placed m d id =
    insert_positions-index_of 0 m.order (λ _. none) id d ∙ shifted_zero (index_of id m.order)

pub rebuild_positions-IsConsistent :
    (m : Model) → IsConsistent m → IsConsistent (rebuild_positions m)
unfolding rebuild_positions
rebuild_positions-IsConsistent m v = record {
  distinct = v.distinct;
  mirrored = v.mirrored;
  placed = λ _. rebuild_positions-placed m v.distinct;
  bounded = v.bounded;
  accounted = v.accounted;
}

abbrev Grown : (ℕ → Option VideoRow) → (ℕ → Option VideoRow) → Type 0
Grown old new = (id : ℕ) → is_some (old id) ≡ true → is_some (new id) ≡ true

update-Grown : (rows : ℕ → Option VideoRow) (r : VideoRow) → Grown rows (update r.id (some r) rows)
update-Grown rows r id h = ground arith

-- More details keep the invariant.
store-IsConsistent :
    (m : Model) (r : VideoRow)
    → IsConsistent m
    → IsConsistent (record m { rows = update r.id (some r) m.rows })
store-IsConsistent m r v = record {
  distinct = v.distinct;
  mirrored = v.mirrored;
  placed = v.placed;
  bounded = v.bounded;
  accounted =
      All-map (λ id. is_accounted m id ≡ true)
        (λ id. is_accounted (record m { rows = update r.id (some r) m.rows }) id ≡ true)
        (λ id h. ground (arith, update-Grown m.rows r id)) (take m.missing_cursor m.order)
        v.accounted;
}

pub emits-IsConsistent : (s : Signal) (m : Model) → IsConsistent m → IsConsistent (emits s m)
emits-IsConsistent s m v = record {
  distinct = v.distinct;
  mirrored = v.mirrored;
  placed = v.placed;
  bounded = v.bounded;
  accounted = v.accounted;
}

-- The flag says that the positions hold.
abbrev pub Usable : Model → Bool → Type 0
Usable m usable = usable ≡ true → m.pos_dirty ≡ false

ready_for-IsConsistent :
    (r : VideoRow) (usable : Bool) (m : Model)
    → IsConsistent m
    → IsConsistent (ready_for r usable m)
unfolding ready_for
ready_for-IsConsistent r true m v = store-IsConsistent m r v
ready_for-IsConsistent r false m v = rebuild_positions-IsConsistent _ (store-IsConsistent m r v)

ready_for-clean :
    (r : VideoRow) (usable : Bool) (m : Model)
    → Usable m usable
    → (ready_for r usable m).pos_dirty ≡ false
unfolding ready_for rebuild_positions
ready_for-clean r true m u = u refl
ready_for-clean r false m u = refl

ready_for-order :
    (r : VideoRow) (usable : Bool) (m : Model) → (ready_for r usable m).order ≡ m.order
unfolding ready_for rebuild_positions
ready_for-order r true m = refl
ready_for-order r false m = refl

-- The signal names the position at which the row stands.
pub update_row_step :
    (r : VideoRow) (usable : Bool) (m : Model)
    → IsConsistent m
    → Usable m usable
    → update_row r usable m ≡ (announce (index_of r.id m.order) (ready_for r usable m), true)
unfolding update_row
update_row_step r usable m v u =
    let ready = ready_for-IsConsistent r usable m v in
    let place = ready.placed (ready_for-clean r usable m u) r.id in rw (place, ready_for-order)

announce-IsConsistent : (o : Option ℕ) (m : Model) → IsConsistent m → IsConsistent (announce o m)
announce-IsConsistent none m v = v
announce-IsConsistent (some i) m v = emits-IsConsistent _ m v

announce-clean : (o : Option ℕ) (m : Model) → (announce o m).pos_dirty ≡ m.pos_dirty
announce-clean none m = refl
announce-clean (some i) m = refl

ready_for-signals :
    (r : VideoRow) (usable : Bool) (m : Model) → (ready_for r usable m).signals ≡ m.signals
unfolding ready_for rebuild_positions
ready_for-signals r true m = refl
ready_for-signals r false m = refl

-- An update of a row that stands in the order of a consistent model tells the views of exactly one
-- changed position, the one at which the row stands, and leaves the order alone; `usable` may
-- say that the stored positions hold only if they are not dirty.
pub update_row-signals :
    (r : VideoRow) (usable : Bool) (m : Model)
    → IsConsistent m
    → Usable m usable
    → m.order_set r.id ≡ true
    → (i : ℕ) × (get_elem? m.order i ≡ some r.id)
      × ((update_row r usable m).0.signals ≡ Signal.data_changed i ∷ m.signals)
      × ((update_row r usable m).0.order ≡ m.order)
update_row-signals r usable m v u stands =
    let (i, e) = index_of-elem r.id m.order (sym (v.mirrored r.id) ∙ stands) in
    (
      i,
      get_elem?-index_of r.id m.order i e,
      rw (update_row_step r usable m v u, e)
          (ap (◌∷◌ (Signal.data_changed i)) (ready_for-signals r usable m)),
      rw (update_row_step r usable m v u, e) (ready_for-order r usable m),
    )

abbrev pub Sound : Model × Bool → Type 0
Sound (m, usable) = IsConsistent m × Usable m usable

pub update_row-Sound :
    (r : VideoRow) (usable : Bool) (m : Model) → Sound (m, usable) → Sound (update_row r usable m)
update_row-Sound r usable m (v, u) = rw (update_row_step r usable m v u) (
  announce-IsConsistent _ _ (ready_for-IsConsistent r usable m v),
  λ _. announce-clean (index_of r.id m.order) _ ∙ ready_for-clean r usable m u,
)

-- The binary search stays within the list.
search_from-le :
    (fuel : ℕ) (below : ℕ → Bool) (l : List ℕ) (first count : ℕ)
    → search_from fuel below l first count ≤ first + count
unfolding search_from
search_from-le zero below l first count = omega arith
search_from-le (suc fuel) below l first count = ground (
  arith,
  search_from-le fuel below l (first + count / 2 + 1) (count - (count / 2 + 1)),
  search_from-le fuel below l first (count / 2),
)

pub lower_bound-le : (below : ℕ → Bool) (l : List ℕ) → lower_bound below l ≤ length l
unfolding lower_bound
lower_bound-le below l = omega (arith, search_from-le (length l) below l 0 (length l))

module _ (before : Text → Text → Bool) where
  pub insert_row-Sound :
      (r : VideoRow) (m : Model)
      → IsConsistent m
      → m.order_set r.id ≡ false
      → Sound (insert_row before r m)
  unfolding insert_row
  insert_row-Sound r m v absent = (
    record {
      distinct = Distinct-insert_at i r.id m.order fresh v.distinct;
      mirrored = λ id. ground (arith, v.mirrored id, elem-insert_at i r.id id m.order);
      placed = λ clean. cc;
      bounded = ground (arith, v.bounded, length-insert_at i r.id m.order);
      accounted =
          take-insert_at (λ id. is_accounted (insert_row before r m).0 id ≡ true) i m.missing_cursor
            r.id m.order (lower_bound-le _ m.order) (ground arith)
            (All-map (λ id. is_accounted m id ≡ true)
              (λ id. is_accounted (insert_row before r m).0 id ≡ true)
              (λ id h. ground (arith, update-Grown m.rows r id)) (take m.missing_cursor m.order)
              v.accounted);
    },
    λ h. cc,
  )
    where
      i : ℕ
      i = lower_bound (λ a. by_name before (update r.id (some r) m.rows) a r.id) m.order

      fresh : elem r.id m.order ≡ false
      fresh = sym (v.mirrored r.id) ∙ absent

  pub apply_row-Sound : (r : VideoRow) (s : Model × Bool) → Sound s → Sound (apply_row before r s)
  unfolding apply_row
  apply_row-Sound r (m, usable) v = elim (Bool-cases (r.id == 0)) [
    | inl skipped ↦ rw (skipped, apply_row) v
    | inr valid ↦ elim (Bool-cases (is_some (m.rows r.id) || m.order_set r.id)) [
      | inl known ↦ rw (valid, known, apply_row) (update_row-Sound r usable m v)
      | inr unknown ↦ rw (valid, unknown, apply_row) (insert_row-Sound r m v.0 (ground arith))
    ]
  ]

  pub apply_each-Sound :
      (rs : List VideoRow) (s : Model × Bool) → Sound s → Sound (apply_each before rs s)
  unfolding apply_each
  apply_each-Sound [] s v = v
  apply_each-Sound (r ∷ rs) s v = apply_each-Sound rs _ (apply_row-Sound r s v)

  -- Rows that arrive one by one, known or new, keep the model consistent.
  pub apply_rows-IsConsistent :
      (rs : List VideoRow) (m : Model)
      → IsConsistent m
      → IsConsistent (apply_rows before rs false m)
  unfolding apply_rows
  apply_rows-IsConsistent rs m v =
      (apply_each-Sound rs (m, not m.pos_dirty) (v, λ h. ground arith)).0
