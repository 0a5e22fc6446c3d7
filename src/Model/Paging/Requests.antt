-- ===== src/Model/Paging/Requests.antt =====
-- `requestMissingDetails`: what one page asks for, and that the rounds come to an end.
use scrub_tub.Base.{
  ℕ, ◌+◌, ◌≤◌, ◌<◌, ◌≡◌, ◌⊎◌, refl, inl, inr, true, false, List, [], ◌∷◌, ◌++◌, arith, leb, leb→le,
  if◌then◌else◌, length, take, drop, elem, All-map, Bool-cases, update, length-append, drop_lt,
  drop-suc, drop_nil, elem-drop, elem-append_one, All-take-suc,
}
use scrub_tub.Model.{Model}
use scrub_tub.Model.Invariant.{IsConsistent, is_accounted}
use scrub_tub.Model.Paging.{is_missing, collect}

-- One step of the inner loop.
abbrev passed : ℕ → Model → Model
passed id m = record m {
  requested_details =
      if is_missing m id then update id true m.requested_details else m.requested_details;
  missing_cursor = m.missing_cursor + 1;
}

abbrev extended : ℕ → List ℕ → Model → List ℕ
extended id missing m = if is_missing m id then missing ++ id ∷ [] else missing

pub collect-IsConsistent :
    (rest missing : List ℕ) (m : Model)
    → IsConsistent m
    → drop m.missing_cursor m.order ≡ rest
    → IsConsistent (collect rest missing m).1
unfolding collect
collect-IsConsistent [] missing m v e = v
collect-IsConsistent (id ∷ rest) missing m v e =
    elim (Bool-cases (leb m.page_size (length (extended id missing m)))) [
      | inl full ↦ rw (full, collect) next
      | inr open_page ↦
          rw (open_page, collect)
            (collect-IsConsistent rest (extended id missing m) (passed id m) next
              (drop-suc m.missing_cursor m.order id rest e))
    ]
  where
    next : IsConsistent (passed id m)
    next = record {
      distinct = v.distinct;
      mirrored = v.mirrored;
      placed = v.placed;
      bounded = omega (arith, v.bounded, drop_lt m.missing_cursor m.order id rest e);
      accounted =
          All-take-suc (λ a. is_accounted (passed id m) a ≡ true) m.missing_cursor m.order id rest e
            (ground arith)
            (All-map (λ a. is_accounted m a ≡ true) (λ a. is_accounted (passed id m) a ≡ true)
              (λ a h. ground arith) (take m.missing_cursor m.order) v.accounted);
    }

-- What the inner loop leaves alone, and how it ends.
pub record Collected (missing page : List ℕ) (m m' : Model) : Type 0 where
  pub order : m'.order ≡ m.order
  pub rows : m'.rows ≡ m.rows
  pub generation : m'.generation ≡ m.generation
  pub page_size : m'.page_size ≡ m.page_size
  pub forward : m.missing_cursor ≤ m'.missing_cursor
  -- A longer page moved the cursor.
  pub moved : length missing < length page → m.missing_cursor < m'.missing_cursor
  pub small : length missing < m.page_size → length page ≤ m.page_size
  -- The loop stops at a full page or at the end of the order.
  pub ended : (m.page_size ≤ length page) ⊎ (length m.order ≤ m'.missing_cursor)

pub collect-Collected :
    (rest missing : List ℕ) (m : Model)
    → drop m.missing_cursor m.order ≡ rest
    → Collected missing (collect rest missing m).0 m (collect rest missing m).1
unfolding collect
collect-Collected [] missing m e = record {
  order = refl;
  rows = refl;
  generation = refl;
  page_size = refl;
  forward = omega arith;
  moved = omega arith;
  small = omega arith;
  ended = inr (drop_nil m.missing_cursor m.order e);
}
collect-Collected (id ∷ rest) missing m e =
    elim (Bool-cases (leb m.page_size (length (extended id missing m)))) [
      | inl full ↦
          rw (full, collect)
            (record {
              order = refl;
              rows = refl;
              generation = refl;
              page_size = refl;
              forward = omega arith;
              moved = omega arith;
              small = omega (arith, extended-length);
              ended = inl (leb→le _ _ full);
            })
      | inr open_page ↦
          rw (open_page, collect)
            (go open_page (
              collect-Collected rest (extended id missing m) (passed id m)
                (drop-suc m.missing_cursor m.order id rest e)))
    ]
  where
    extended-length : length (extended id missing m) ≤ length missing + 1
    extended-length = ground (arith, length-append missing (id ∷ []))

    go :
        {page : List ℕ} {m' : Model}
        → leb m.page_size (length (extended id missing m)) ≡ false
        → Collected (extended id missing m) page (passed id m) m'
        → Collected missing page m m'
    go open_page c = record {
      order = c.order;
      rows = c.rows;
      generation = c.generation;
      page_size = c.page_size;
      forward = omega (arith, c.forward);
      moved = omega (arith, c.forward);
      small = λ h. c.small (ground arith);
      ended = c.ended;
    }

collect-requested :
    (rest missing : List ℕ) (m : Model) (a : ℕ)
    → m.requested_details a ≡ true
    → (collect rest missing m).1.requested_details a ≡ true
unfolding collect
collect-requested [] missing m a h = h
collect-requested (id ∷ rest) missing m a h =
    elim (Bool-cases (leb m.page_size (length (extended id missing m)))) [
      | inl full ↦ rw (full, collect) (ground arith)
      | inr open_page ↦
          rw (open_page, collect)
            (collect-requested rest (extended id missing m) (passed id m) a (ground arith))
    ]

-- The ids of a page stood in the order with neither details nor a request, and are requested now.
abbrev Fresh : List ℕ → List ℕ → Model → Model → ℕ → Type 0
Fresh missing page m m' a =
    elem a page ≡ true
    → elem a missing ≡ false
    → (is_missing m a ≡ true) × (elem a m.order ≡ true) × (m'.requested_details a ≡ true)

collect-Fresh :
    (rest missing : List ℕ) (m : Model) (a : ℕ)
    → drop m.missing_cursor m.order ≡ rest
    → Fresh missing (collect rest missing m).0 m (collect rest missing m).1 a
unfolding collect
collect-Fresh [] missing m a e = λ h k. cc
collect-Fresh (id ∷ rest) missing m a e =
    elim (Bool-cases (leb m.page_size (length (extended id missing m)))) [
      | inl full ↦ rw (full, collect) here
      | inr open_page ↦
          rw (open_page, collect)
            (λ h k. elim (Bool-cases (elem a (extended id missing m))) [
              | inl added ↦
                  let (gone, stood, asked) = here added k in
                  (
                    gone,
                    stood,
                    collect-requested rest (extended id missing m) (passed id m) a asked,
                  )
              | inr later ↦
                  let (gone, stood, asked) =
                    collect-Fresh rest (extended id missing m) (passed id m) a
                      (drop-suc m.missing_cursor m.order id rest e) h later in
                  (ground arith, stood, asked)
            ])
    ]
  where
    here : Fresh missing (extended id missing m) m (passed id m) a
    here h k =
        let same : (is_missing m id ≡ true) × (id ≡ a) =
          ground (arith, elem-append_one a missing id) in
        let stands = elem-drop m.missing_cursor m.order id rest e in
        (rw (← same.1) same.0, rw (← same.1) stands, ground arith)

-- A page holds at most `page_size` ids. Each stood in the order with neither details nor a request in
-- this generation, and is marked as requested afterwards; so no id is requested twice.
pub collect_page :
    (m : Model) (a : ℕ)
    → 0 < m.page_size
    → elem a (collect (drop m.missing_cursor m.order) [] m).0 ≡ true
    → let (page, m') = collect (drop m.missing_cursor m.order) [] m in
      (length page ≤ m.page_size)
      × ((is_missing m a ≡ true) × (elem a m.order ≡ true) × (m'.requested_details a ≡ true))
collect_page m a p h = (
  (collect-Collected (drop m.missing_cursor m.order) [] m refl).small p,
  collect-Fresh (drop m.missing_cursor m.order) [] m a refl h refl,
)
