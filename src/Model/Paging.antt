-- ===== src/Model/Paging.antt =====
-- src/catalogue/CatalogueModel.cpp, `setOrder`, `requestMissingDetails` and `applyPage`: the display
-- order of a search result, and its details page by page. `reply` is what a fetch callback
-- answers before it returns: `none` for the queued reply of the application, `some rows` for a
-- callback that calls `applyPage` itself, which then finds `m_fetching` set.
pub mod Requests
pub mod Removal
pub mod Replies
pub mod Rounds
mod Tests
use scrub_tub.Base.{
  ℕ, zero, suc, ◌+◌, ◌-◌, Bool, true, false, ◌&&◌, ◌||◌, not, Option, none, some, List, [], ◌∷◌,
  ◌++◌, ltb, leb, ◌==◌, if◌then◌else◌, is_some, length, drop, elem, index_of, remove_at, update,
  Text,
}
use scrub_tub.Row.{VideoRow}
use scrub_tub.Model.{Model, Signal, emits, set_of, rebuild_positions, apply_rows}

abbrev pub is_missing : Model → ℕ → Bool
is_missing m id = not (is_some (m.rows id)) && not (m.requested_details id)

-- The inner loop: `rest` is the order from the cursor on, `missing` the page so far.
pub collect : List ℕ → List ℕ → Model → List ℕ × Model
collect [] missing m = (missing, m)
collect (id ∷ rest) missing m =
    let wanted = is_missing m id in
    let page = if wanted then missing ++ id ∷ [] else missing in
    let next = record m {
      requested_details =
          if wanted then update id true m.requested_details else m.requested_details;
      missing_cursor = m.missing_cursor + 1;
    } in
    let more = collect rest page next in
    if leb m.page_size (length page) then (page, next) else more

-- The rows of a page that were asked for and still stand in the order.
pub visible_rows : (ℕ → Bool) → (ℕ → Bool) → List VideoRow → List VideoRow
visible_rows requested in_order [] = []
visible_rows requested in_order (r ∷ rs) =
    if not (r.id == 0) && (requested r.id && in_order r.id)
    then r ∷ visible_rows requested in_order rs
    else visible_rows requested in_order rs

-- `received`
pub ids_of : List VideoRow → ℕ → Bool
ids_of [] id = false
ids_of (r ∷ rs) id = r.id == id || ids_of rs id

pub remove_row : ℕ → ℕ → Model → Model
remove_row id i m = emits Signal.count_changed (
    emits (Signal.rows_removed i) (record m {
      order = remove_at i m.order;
      order_set = update id false m.order_set;
      rows = update id none m.rows;
      pos_dirty = true;
      positions = update id none m.positions;
      missing_cursor = if ltb i m.missing_cursor then m.missing_cursor - 1 else m.missing_cursor;
    }))

-- One requested id: nothing to do if its row came, or if it has left the order already.
pub settle : (ℕ → Bool) → ℕ → Model → Model
settle received id m =
    if received id then m else elim (index_of id m.order) [ none ↦ m | some i ↦ remove_row id i m ]

-- The loop over the requested ids.
pub remove_absent : (ℕ → Bool) → List ℕ → Model → Model
remove_absent received [] m = m
remove_absent received (id ∷ ids) m = remove_absent received ids (settle received id m)

-- `setOrder` before the positions are computed.
abbrev pub reordered : List ℕ → Model → Model
reordered ids m = record m {
  generation = m.generation + 1;
  requested_details = λ _. false;
  order = ids;
  order_set = set_of ids;
  missing_cursor = 0;
}

-- The reply for `first` has not arrived, and nothing else has changed the order.
pub is_pending : ℕ → ℕ → Model → Bool
is_pending first generation m =
    generation == m.generation && (m.order_set first && not (is_some (m.rows first)))

module _ (before : Text → Text → Bool) where
  -- `applyPage` up to its last call.
  pub apply_reply : List VideoRow → List ℕ → Model → Model
  apply_reply rows requested m =
      let visible = visible_rows (set_of requested) m.order_set rows in
      apply_rows before visible false (remove_absent (ids_of visible) requested m)

  module _ (reply : List ℕ → ℕ → Option (List VideoRow)) where
    pub fetch_page : List ℕ → Model → Model
    fetch_page missing m =
        let asked = record m { fetches = (missing, m.generation) ∷ m.fetches } in
        elim (reply missing m.generation) [
          | none ↦ asked
          | some rows ↦ apply_reply rows missing asked
        ]

    pub request_loop : ℕ → Model → Model
    request_loop zero m = m
    request_loop (suc fuel) m =
        let (missing, collected) = collect (drop m.missing_cursor m.order) [] m in
        elim missing [
          | [] ↦ collected
          | first ∷ others ↦
              let fetched = fetch_page (first ∷ others) collected in
              let again = request_loop fuel fetched in
              if is_pending first collected.generation fetched then fetched else again
        ]

    -- Each round but the last moves the cursor, so one round more than the order is long is enough.
    pub request_missing_details : Model → Model
    request_missing_details m =
        let done = request_loop (length m.order + 1) (record m { fetching = true }) in
        if not m.has_fetch || m.fetching then m else record done { fetching = false }

    pub set_order : List ℕ → Model → Model
    set_order ids m =
        request_missing_details
          (emits Signal.count_changed (emits Signal.reset (rebuild_positions (reordered ids m))))

    pub apply_page : List VideoRow → List ℕ → ℕ → Model → Model
    apply_page rows requested generation m =
        if generation == m.generation
        then request_missing_details (apply_reply rows requested m)
        else m
