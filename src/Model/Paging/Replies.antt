-- ===== src/Model/Paging/Replies.antt =====
-- What a page reply leaves: which ids stay, that their details are here, and how far the cursor is.
use scrub_tub.Base.{
  ℕ, ◌-◌, ◌≤◌, ◌≡◌, refl, ap, ◌∙◌, inl, inr, Bool, true, false, ◌&&◌, ◌||◌, not, Option, none, some,
  List, [], ◌∷◌, arith, ◌==◌, is_some, length, elem, index_of, All, All-map, All-map₂, Bool-cases,
  Option-cases, update, length-remove_at, elem-remove_at, index_of-lt, index_of-none, Text,
}
use scrub_tub.Row.{VideoRow}
use scrub_tub.Model.{
  Model, announce, apply_rows, apply_each, apply_row, update_row, ready_for, rebuild_positions,
  set_of,
}
use scrub_tub.Model.Invariant.{IsConsistent}
use scrub_tub.Model.Paging.{remove_row, settle, remove_absent, visible_rows, ids_of, apply_reply}
use scrub_tub.Model.Paging.Removal.{settle-IsConsistent, remove_absent-IsConsistent}

-- The rows of the order that the cursor has not passed.
abbrev pub ahead : Model → ℕ
ahead m = length m.order - m.missing_cursor

settle-elem :
    (received : ℕ → Bool) (id : ℕ) (m : Model) (a : ℕ)
    → IsConsistent m
    → elem a (settle received id m).order ≡ (elem a m.order && (received a || not (id == a)))
unfolding settle remove_row
settle-elem received id m a v = elim (Option-cases (index_of id m.order)) [
  | inl e ↦ ground (arith, index_of-none id m.order e)
  | inr (i, e) ↦ ground (arith, e, elem-remove_at i id a m.order v.distinct e)
]

remove_absent-elem :
    (received : ℕ → Bool) (ids : List ℕ) (m : Model) (a : ℕ)
    → IsConsistent m
    → elem a (remove_absent received ids m).order
      ≡ (elem a m.order && (received a || not (elem a ids)))
unfolding remove_absent
remove_absent-elem received [] m a v = ground arith
remove_absent-elem received (id ∷ ids) m a v =
    let ih = remove_absent-elem received ids _ a (settle-IsConsistent received id m v) in
    ground (arith, ih, settle-elem received id m a v)

settle-ahead : (received : ℕ → Bool) (id : ℕ) (m : Model) → ahead (settle received id m) ≤ ahead m
unfolding settle remove_row
settle-ahead received id m = elim (Option-cases (index_of id m.order)) [
  | inl e ↦ ground (arith, e)
  | inr (i, e) ↦ ground (arith, e, length-remove_at i m.order, index_of-lt id m.order i e)
]

remove_absent-ahead :
    (received : ℕ → Bool) (ids : List ℕ) (m : Model)
    → ahead (remove_absent received ids m) ≤ ahead m
unfolding remove_absent
remove_absent-ahead received [] m = omega arith
remove_absent-ahead received (id ∷ ids) m =
    omega
      (arith, remove_absent-ahead received ids (settle received id m), settle-ahead received id m)

settle-page_size :
    (received : ℕ → Bool) (id : ℕ) (m : Model) → (settle received id m).page_size ≡ m.page_size
unfolding settle remove_row
settle-page_size received id m = ground arith

remove_absent-page_size :
    (received : ℕ → Bool) (ids : List ℕ) (m : Model)
    → (remove_absent received ids m).page_size ≡ m.page_size
unfolding remove_absent
remove_absent-page_size received [] m = refl
remove_absent-page_size received (id ∷ ids) m =
    remove_absent-page_size received ids _ ∙ settle-page_size received id m

-- All that a known row changes is its details and the positions.
record IsStored (r : VideoRow) (m m' : Model) : Type 0 where
  rows : m'.rows ≡ update r.id (some r) m.rows
  order : m'.order ≡ m.order
  order_set : m'.order_set ≡ m.order_set
  cursor : m'.missing_cursor ≡ m.missing_cursor
  page_size : m'.page_size ≡ m.page_size

announce-IsStored :
    (r : VideoRow) (o : Option ℕ) (m m' : Model) → IsStored r m m' → IsStored r m (announce o m')
announce-IsStored r none m m' h = h
announce-IsStored r (some i) m m' h = record {
  rows = h.rows;
  order = h.order;
  order_set = h.order_set;
  cursor = h.cursor;
  page_size = h.page_size;
}

ready_for-IsStored :
    (r : VideoRow) (usable : Bool) (m : Model) → IsStored r m (ready_for r usable m)
unfolding ready_for rebuild_positions
ready_for-IsStored r true m = record {
  rows = refl;
  order = refl;
  order_set = refl;
  cursor = refl;
  page_size = refl;
}
ready_for-IsStored r false m = record {
  rows = refl;
  order = refl;
  order_set = refl;
  cursor = refl;
  page_size = refl;
}

update_row-IsStored :
    (r : VideoRow) (usable : Bool) (m : Model) → IsStored r m (update_row r usable m).0
unfolding update_row
update_row-IsStored r usable m = announce-IsStored r _ m _ (ready_for-IsStored r usable m)

-- The rows of a reply all stand in the order.
abbrev Known : Model → VideoRow → Type 0
Known m r = (m.order_set r.id ≡ true) × ((r.id == 0) ≡ false)

record Settled (ids : ℕ → Bool) (m m' : Model) : Type 0 where
  rows : (a : ℕ) → is_some (m'.rows a) ≡ (is_some (m.rows a) || ids a)
  order : m'.order ≡ m.order
  cursor : m'.missing_cursor ≡ m.missing_cursor
  page_size : m'.page_size ≡ m.page_size

ids_of-visible_rows :
    (requested in_order : ℕ → Bool) (rows : List VideoRow) (a : ℕ)
    → ids_of (visible_rows requested in_order rows) a
      ≡ (ids_of rows a && (not (a == 0) && (requested a && in_order a)))
unfolding ids_of visible_rows
ids_of-visible_rows requested in_order [] a = refl
ids_of-visible_rows requested in_order (r ∷ rs) a = elim (Bool-cases (r.id == a)) [
  | inl same ↦
      let e : r.id ≡ a = ground arith in
      rw (← e) (ground (arith, ids_of-visible_rows requested in_order rs r.id))
  | inr other ↦ ground (arith, ids_of-visible_rows requested in_order rs a)
]

visible_rows-All :
    (requested in_order : ℕ → Bool) (rows : List VideoRow)
    → All (λ r. (r.id == 0) ≡ false) (visible_rows requested in_order rows)
unfolding visible_rows
visible_rows-All requested in_order [] = tt
visible_rows-All requested in_order (r ∷ rs) =
    ground (arith, visible_rows-All requested in_order rs)

ids_of-All : (rs : List VideoRow) → All (λ r. ids_of rs r.id ≡ true) rs
unfolding ids_of
ids_of-All [] = tt
ids_of-All (r ∷ rs) = (
  ground arith,
  All-map (λ q. ids_of rs q.id ≡ true) (λ q. ids_of (r ∷ rs) q.id ≡ true) (λ q h. ground arith) rs
      (ids_of-All rs),
)

module _ (before : Text → Text → Bool) where
  apply_row-IsStored :
      (r : VideoRow) (usable : Bool) (m : Model)
      → Known m r
      → IsStored r m (apply_row before r (m, usable)).0
  unfolding apply_row
  apply_row-IsStored r usable m (known, valid) =
      let found : is_some (m.rows r.id) || m.order_set r.id ≡ true = ground arith in
      rw (valid, found) (update_row-IsStored r usable m)

  apply_each-Settled :
      (rs : List VideoRow) (m : Model) (usable : Bool)
      → All (Known m) rs
      → Settled (ids_of rs) m (apply_each before rs (m, usable)).0
  unfolding apply_each ids_of
  apply_each-Settled [] m usable h = record {
    rows = λ a. ground arith;
    order = refl;
    cursor = refl;
    page_size = refl;
  }
  apply_each-Settled (r ∷ rs) m usable (h, hs) =
      let (m', usable') = apply_row before r (m, usable) in
      let st = apply_row-IsStored r usable m h in
      let kept = All-map (Known m) (Known m') (λ q k. rw st.order_set k) rs hs in
      let ih = apply_each-Settled rs m' usable' kept in
      record {
        rows = λ a. ground (arith, ih.rows a, ap (λ f. is_some (f a)) st.rows);
        order = ih.order ∙ st.order;
        cursor = ih.cursor ∙ st.cursor;
        page_size = ih.page_size ∙ st.page_size;
      }

  module _ (rows : List VideoRow) (requested : List ℕ) (m : Model) (v : IsConsistent m) where
    abbrev visible : List VideoRow
    visible = visible_rows (set_of requested) m.order_set rows

    abbrev pruned : Model
    pruned = remove_absent (ids_of visible) requested m

    pruned-elem :
        (a : ℕ)
        → elem a pruned.order ≡ (elem a m.order && (ids_of visible a || not (elem a requested)))
    pruned-elem a = remove_absent-elem (ids_of visible) requested m a v

    visible-Known : All (Known pruned) visible
    unfolding set_of
    visible-Known =
        All-map₂ (λ r. (r.id == 0) ≡ false) (λ r. ids_of visible r.id ≡ true) (Known pruned)
          (λ r valid here. (
            (remove_absent-IsConsistent (ids_of visible) requested m v).mirrored r.id
                ∙ ground (
                  arith,
                  pruned-elem r.id,
                  ids_of-visible_rows (set_of requested) m.order_set rows r.id,
                  v.mirrored r.id,
                ),
            valid,
          ))
          visible (visible_rows-All (set_of requested) m.order_set rows) (ids_of-All visible)

    settled : Settled (ids_of visible) pruned (apply_reply before rows requested m)
    unfolding apply_reply apply_rows
    settled = apply_each-Settled visible pruned (not pruned.pos_dirty) visible-Known

    -- A reply removes from the order exactly the requested ids for which no row came.
    pub apply_reply-order :
        (a : ℕ)
        → elem a (apply_reply before rows requested m).order
          ≡ (elem a m.order && (not (elem a requested) || (ids_of rows a && not (a == 0))))
    unfolding set_of
    apply_reply-order a =
        ap (elem a) settled.order
        ∙ ground (
          arith,
          pruned-elem a,
          ids_of-visible_rows (set_of requested) m.order_set rows a,
          v.mirrored a,
        )

    -- What was requested and still stands has its details.
    pub apply_reply-details :
        (a : ℕ)
        → elem a requested ≡ true
        → elem a (apply_reply before rows requested m).order ≡ true
        → is_some ((apply_reply before rows requested m).rows a) ≡ true
    apply_reply-details a asked stands =
        ground (arith, settled.rows a, pruned-elem a, ap (elem a) settled.order)

    pub apply_reply-ahead : ahead (apply_reply before rows requested m) ≤ ahead m
    apply_reply-ahead =
        rw (settled.order, settled.cursor) (remove_absent-ahead (ids_of visible) requested m)

    pub apply_reply-page_size : (apply_reply before rows requested m).page_size ≡ m.page_size
    apply_reply-page_size = settled.page_size ∙ remove_absent-page_size (ids_of visible) requested m
