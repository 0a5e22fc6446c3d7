-- ===== src/Model.antt =====
-- src/catalogue/CatalogueModel.{h,cpp}: the list model on the UI thread, with generation-checked
-- detail paging. QHash and QSet are functions with an update, QVector is a list. The name order of
-- the collation and the reply of the fetch callback are parameters.
pub mod Invariant
pub mod Reset
pub mod Paging
use scrub_tub.Base.{
  ℕ, zero, suc, ◌+◌, ◌-◌, ◌/◌, Bool, true, false, ◌&&◌, ◌||◌, not, Option, none, some, List, [],
  ◌∷◌, ◌++◌, ltb, leb, ◌==◌, if◌then◌else◌, is_some, length, get_elem?, elem, index_of, insert_at,
  remove_at, update, map, Text, ◌≡◌, ◌<◌, refl,
}
use scrub_tub.Row.{VideoRow, ScanProgress, default_row}

-- What a view is told.
pub data Signal : Type 0 where
  reset : Signal
  rows_inserted : ℕ → Signal
  rows_removed : ℕ → Signal
  data_changed : ℕ → Signal
  count_changed : Signal
  progress_changed : Signal

-- `signals` and `fetches` hold what was emitted and requested, newest first.
pub record Model : Type 0 where
  pub rows : ℕ → Option VideoRow
  pub order : List ℕ
  pub order_set : ℕ → Bool
  pub positions : ℕ → Option ℕ
  pub pos_dirty : Bool
  pub missing_cursor : ℕ
  pub has_fetch : Bool
  pub fetching : Bool
  pub requested_details : ℕ → Bool
  pub page_size : ℕ
  pub generation : ℕ
  pub progress : Option ScanProgress
  pub signals : List Signal
  pub fetches : List (List ℕ × ℕ)

abbrev pub init : Model
init = record {
  rows = λ _. none;
  order = [];
  order_set = λ _. false;
  positions = λ _. none;
  pos_dirty = true;
  missing_cursor = 0;
  has_fetch = false;
  fetching = false;
  requested_details = λ _. false;
  page_size = 200;
  generation = 0;
  progress = none;
  signals = [];
  fetches = [];
}

abbrev emits : Signal → Model → Model
emits s m = record m { signals = s ∷ m.signals }

-- The loop of `rebuildPositions` from position `i` on.
insert_positions : ℕ → List ℕ → (ℕ → Option ℕ) → ℕ → Option ℕ
insert_positions i [] p = p
insert_positions i (id ∷ ids) p = insert_positions (i + 1) ids (update id (some i) p)

pub rebuild_positions : Model → Model
unfolding insert_positions
rebuild_positions m = record m {
  positions = insert_positions 0 m.order (λ _. none);
  pos_dirty = false;
}

-- `m_rows.value(id).fileName`
pub name_of : (ℕ → Option VideoRow) → ℕ → Text
name_of rows id = elim (rows id) [ none ↦ default_row.file_name | some r ↦ r.file_name ]

-- `QSet(ids.begin(), ids.end())`
pub set_of : List ℕ → ℕ → Bool
set_of ids id = elem id ids

pub set_fetch_callback : Bool → Model → Model
set_fetch_callback present m = record m { has_fetch = present }

pub set_page_size : ℕ → Model → Model
set_page_size n m = record m { page_size = n }

pub apply_progress : ScanProgress → Model → Model
apply_progress p m = emits progress_changed (record m { progress = some p })

-- `std::lower_bound` by halving: `count` elements from `first` on are left.
search_from : ℕ → (ℕ → Bool) → List ℕ → ℕ → ℕ → ℕ
search_from zero below l first count = first
search_from (suc fuel) below l first count =
    let step = count / 2 in
    let upper = search_from fuel below l (first + step + 1) (count - (step + 1)) in
    let lower = search_from fuel below l first step in
    if count == 0 then first else elim (get_elem? l (first + step)) [
      | none ↦ first
      | some id ↦ if below id then upper else lower
    ]

pub lower_bound : (ℕ → Bool) → List ℕ → ℕ
unfolding search_from
lower_bound below l = search_from (length l) below l 0 (length l)

-- `std::sort`
insert_sorted : (ℕ → ℕ → Bool) → ℕ → List ℕ → List ℕ
insert_sorted lt x [] = x ∷ []
insert_sorted lt x (y ∷ l) = if lt x y then x ∷ y ∷ l else y ∷ insert_sorted lt x l

pub sort : (ℕ → ℕ → Bool) → List ℕ → List ℕ
unfolding insert_sorted
sort lt [] = []
sort lt (x ∷ l) = insert_sorted lt x (sort lt l)

-- The loop of a reset: every row is stored and its id appended.
pub store_rows : List VideoRow → Model → Model
store_rows [] m = m
store_rows (r ∷ rs) m = store_rows rs (record m {
  rows = update r.id (some r) m.rows;
  order = m.order ++ r.id ∷ [];
  order_set = update r.id true m.order_set;
})

-- The row is stored; unusable positions are computed again.
pub ready_for : VideoRow → Bool → Model → Model
unfolding rebuild_positions
ready_for r usable m =
    let stored = record m { rows = update r.id (some r) m.rows } in
    if usable then stored else rebuild_positions stored

abbrev announce : Option ℕ → Model → Model
announce none m = m
announce (some i) m = emits (data_changed i) m

-- A row whose id is known: its data is replaced in place.
pub update_row : VideoRow → Bool → Model → Model × Bool
update_row r usable m =
    let ready = ready_for r usable m in (announce (ready.positions r.id) ready, true)

-- `before a b`: the name `a` stands before `b` in the case-insensitive collation.
module _ (before : Text → Text → Bool) where
  abbrev pub by_name : (ℕ → Option VideoRow) → ℕ → ℕ → Bool
  by_name rows a b = before (name_of rows a) (name_of rows b)

  pub reset_rows : List VideoRow → Model → Model
  reset_rows rs m =
      let cleared = record m {
        generation = m.generation + 1;
        requested_details = λ _. false;
        rows = λ _. none;
        order = [];
        order_set = λ _. false;
        missing_cursor = 0;
      } in
      let stored = store_rows rs cleared in
      let sorted = record stored { order = sort (by_name stored.rows) stored.order } in
      emits count_changed (emits reset (rebuild_positions sorted))

  -- A row whose id is new: it is inserted at its place by name.
  pub insert_row : VideoRow → Model → Model × Bool
  insert_row r m =
      let rows = update r.id (some r) m.rows in
      let i = lower_bound (λ a. by_name rows a r.id) m.order in
      let inserted = record m {
        rows = rows;
        order = insert_at i r.id m.order;
        order_set = update r.id true m.order_set;
        pos_dirty = true;
        missing_cursor = if leb i m.missing_cursor then m.missing_cursor + 1 else m.missing_cursor;
      } in
      (emits count_changed (emits (rows_inserted i) inserted), false)

  pub apply_row : VideoRow → Model × Bool → Model × Bool
  apply_row r (m, usable) =
      if r.id == 0
      then (m, usable)
      else (if is_some (m.rows r.id) || m.order_set r.id
          then update_row r usable m
          else insert_row r m)

  pub apply_each : List VideoRow → Model × Bool → Model × Bool
  apply_each [] s = s
  apply_each (r ∷ rs) s = apply_each rs (apply_row r s)

  pub apply_rows : List VideoRow → Bool → Model → Model
  apply_rows rs true m = reset_rows rs m
  apply_rows rs false m = (apply_each rs (m, not m.pos_dirty)).0
