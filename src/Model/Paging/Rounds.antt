-- ===== src/Model/Paging/Rounds.antt =====
-- `requestMissingDetails` as a whole: its rounds keep the invariant and come to an end.
use scrub_tub.Base.{
  ℕ, zero, suc, ◌+◌, ◌≤◌, ◌<◌, ◌≡◌, ◌⊎◌, refl, sym, ap, ◌∙◌, inl, inr, Bool, true, false, ◌||◌, not,
  Option, none, List, [], ◌∷◌, arith, ◌==◌, if◌then◌else◌, is_some, length, drop, elem, Distinct,
  Bool-cases, Option-cases, List-cases, Text,
}
use scrub_tub.Row.{VideoRow}
use scrub_tub.Model.{Model, rebuild_positions, set_of}
use scrub_tub.Model.Invariant.{IsConsistent, rebuild_positions-placed}
use scrub_tub.Model.Paging.{
  collect, fetch_page, request_loop, is_pending, request_missing_details, apply_reply, set_order,
  reordered, apply_page,
}
use scrub_tub.Model.Paging.Removal.{apply_reply-IsConsistent}
use scrub_tub.Model.Paging.Replies.{
  ahead, apply_reply-ahead, apply_reply-page_size, apply_reply-details,
}
use scrub_tub.Model.Paging.Requests.{
  Collected, collect-Collected, collect-IsConsistent, collect_page,
}

module _ (before : Text → Text → Bool) (reply : List ℕ → ℕ → Option (List VideoRow)) where
  -- The page that was asked for last is not answered yet, and it holds an id that stands in the order
  -- without a row and is marked as requested.
  pub record IsAwaited (m : Model) : Type 0 where
    pub page : List ℕ
    pub earlier : List (List ℕ × ℕ)
    pub asked_last : m.fetches ≡ (page, m.generation) ∷ earlier
    pub unanswered : reply page m.generation ≡ none
    pub id : ℕ
    pub on_page : elem id page ≡ true
    pub stands : elem id m.order ≡ true
    pub rowless : is_some (m.rows id) ≡ false
    pub requested : m.requested_details id ≡ true

  -- Where the rounds end: the cursor has passed the whole order, or a page waits for its reply.
  abbrev pub IsSettled : Model → Type 0
  IsSettled m = (m.missing_cursor ≡ length m.order) ⊎ IsAwaited m

  -- What a round keeps, and that the cursor never falls back.
  record IsRound (m m' : Model) : Type 0 where
    consistent : IsConsistent m'
    page_size : m'.page_size ≡ m.page_size
    forward : ahead m' ≤ ahead m

  fetch_page-IsRound :
      (page : List ℕ) (m : Model) → IsConsistent m → IsRound m (fetch_page before reply page m)
  unfolding fetch_page
  fetch_page-IsRound page m v = elim (Option-cases (reply page m.generation)) [
    | inl e ↦
        rw (e, fetch_page)
          (record { consistent = asked-v; page_size = refl; forward = omega arith })
    | inr (rows, e) ↦
        rw (e, fetch_page)
          (record {
            consistent = apply_reply-IsConsistent before rows page asked asked-v;
            page_size = apply_reply-page_size before rows page asked asked-v;
            forward = apply_reply-ahead before rows page asked asked-v;
          })
  ]
    where
      asked : Model
      asked = record m { fetches = (page, m.generation) ∷ m.fetches }

      asked-v : IsConsistent asked
      asked-v = record {
        distinct = v.distinct;
        mirrored = v.mirrored;
        placed = v.placed;
        bounded = v.bounded;
        accounted = v.accounted;
      }

  -- A callback that answers at once leaves no row of its page to wait for.
  waiting-IsAwaited :
      (first : ℕ) (others : List ℕ) (m : Model)
      → IsConsistent m
      → m.requested_details first ≡ true
      → is_pending first m.generation (fetch_page before reply (first ∷ others) m) ≡ true
      → IsAwaited (fetch_page before reply (first ∷ others) m)
  unfolding fetch_page is_pending
  waiting-IsAwaited first others m v h waiting =
      let page = first ∷ others in
      let asked = record m { fetches = (page, m.generation) ∷ m.fetches } in
      let asked-v : IsConsistent asked = record {
        distinct = v.distinct;
        mirrored = v.mirrored;
        placed = v.placed;
        bounded = v.bounded;
        accounted = v.accounted;
      } in
      elim (Option-cases (reply page m.generation)) [
        | inl e ↦
            rw (e, fetch_page)
              (record {
                page = page;
                earlier = m.fetches;
                asked_last = refl;
                unanswered = e;
                id = first;
                on_page = ground arith;
                stands = sym (v.mirrored first) ∙ ground (arith, e);
                rowless = ground (arith, e);
                requested = h;
              })
        | inr (rows, e) ↦
            let w = apply_reply-IsConsistent before rows page asked asked-v in
            let details = apply_reply-details before rows page asked asked-v first in
            absurd (ground (arith, e, w.mirrored first, details))
      ]

  -- The end of one round, given what holds of the later rounds.
  round-IsSettled :
      (fuel first generation : ℕ) (m : Model)
      → IsConsistent m
      → (is_pending first generation m ≡ true → IsAwaited m)
      → IsConsistent (request_loop before reply fuel m)
        × IsSettled (request_loop before reply fuel m)
      → let last = if is_pending first generation m then m else request_loop before reply fuel m in
        IsConsistent last × IsSettled last
  round-IsSettled fuel first generation m v awaited later =
      elim (Bool-cases (is_pending first generation m)) [
        | inl waiting ↦ rw waiting (v, inr (awaited waiting))
        | inr arrived ↦ rw arrived later
      ]

  request_loop-IsSettled :
      (fuel : ℕ) (m : Model)
      → IsConsistent m
      → 0 < m.page_size
      → ahead m < fuel
      → IsConsistent (request_loop before reply fuel m)
        × IsSettled (request_loop before reply fuel m)
  unfolding request_loop
  request_loop-IsSettled zero m v p h = absurd (omega arith)
  request_loop-IsSettled (suc fuel) m v p h = elim (List-cases page) [
    | inl e ↦ rw (e, request_loop) (w, inl (at_end e))
    | inr (first, others, e) ↦
        let fetched = fetch_page before reply (first ∷ others) collected in
        let r = fetch_page-IsRound (first ∷ others) collected w in
        rw (e, request_loop)
          (round-IsSettled fuel first collected.generation fetched r.consistent
            (waiting-IsAwaited first others collected w (requested e))
            (request_loop-IsSettled fuel fetched r.consistent
              (omega (arith, r.page_size, c.page_size, p)) (omega (arith, r.forward, nearer e, h))))
  ]
    where
      page : List ℕ
      page = (collect (drop m.missing_cursor m.order) [] m).0

      collected : Model
      collected = (collect (drop m.missing_cursor m.order) [] m).1

      c : Collected [] page m collected
      c = collect-Collected (drop m.missing_cursor m.order) [] m refl

      w : IsConsistent collected
      w = collect-IsConsistent (drop m.missing_cursor m.order) [] m v refl

      at_end : page ≡ [] → collected.missing_cursor ≡ length collected.order
      at_end e = omega (arith, c.ended, c.forward, w.bounded, ap length c.order, ap length e, p)

      requested :
          {first : ℕ} {others : List ℕ}
          → page ≡ first ∷ others
          → collected.requested_details first ≡ true
      requested {first} {others} e =
          let (_, (_, _, marked)) = collect_page m first p (ground (arith, ap (elem first) e)) in
          marked

      nearer : {first : ℕ} {others : List ℕ} → page ≡ first ∷ others → ahead collected < ahead m
      nearer e = omega (arith, c.moved, w.bounded, ap length c.order, ap length e)

  refetching : Bool → Model → Model
  refetching busy m = record m { fetching = busy }

  refetching-IsConsistent :
      (busy : Bool) (m : Model) → IsConsistent m → IsConsistent (refetching busy m)
  unfolding refetching
  refetching-IsConsistent busy m v = record {
    distinct = v.distinct;
    mirrored = v.mirrored;
    placed = v.placed;
    bounded = v.bounded;
    accounted = v.accounted;
  }

  refetching-IsSettled : (busy : Bool) (m : Model) → IsSettled m → IsSettled (refetching busy m)
  unfolding refetching
  refetching-IsSettled busy m (inl done) = inl done
  refetching-IsSettled busy m (inr a) = inr (record {
    page = a.page;
    earlier = a.earlier;
    asked_last = a.asked_last;
    unanswered = a.unanswered;
    id = a.id;
    on_page = a.on_page;
    stands = a.stands;
    rowless = a.rowless;
    requested = a.requested;
  })

  -- With a callback, a positive page size and no request under way, the rounds end within their
  -- fuel: the model stays consistent, and either the cursor has passed the whole order, or the page
  -- that was asked for last, in this generation, is unanswered and holds an id that stands in the
  -- order without a row and is marked as requested.
  pub request_missing_details-IsSettled :
      (m : Model)
      → IsConsistent m
      → 0 < m.page_size
      → m.has_fetch ≡ true
      → m.fetching ≡ false
      → IsConsistent (request_missing_details before reply m)
        × IsSettled (request_missing_details before reply m)
  unfolding request_missing_details refetching
  request_missing_details-IsSettled m v p present idle =
      let (w, s) =
        request_loop-IsSettled (length m.order + 1) (refetching true m)
          (refetching-IsConsistent true m v) p (omega arith) in
      let granted : not m.has_fetch || m.fetching ≡ false = ground arith in
      rw (granted, request_missing_details)
        (refetching-IsConsistent false _ w, refetching-IsSettled false _ s)

  request_missing_details-IsConsistent :
      (m : Model)
      → IsConsistent m
      → 0 < m.page_size
      → IsConsistent (request_missing_details before reply m)
  unfolding request_missing_details refetching
  request_missing_details-IsConsistent m v p = elim (Bool-cases (not m.has_fetch || m.fetching)) [
    | inl refused ↦ rw (refused, request_missing_details) v
    | inr granted ↦
        rw (granted, request_missing_details)
          (refetching-IsConsistent false _
            (request_loop-IsSettled (length m.order + 1) (refetching true m)
              (refetching-IsConsistent true m v) p (omega arith)).0)
  ]

  -- With a positive page size, a new order of distinct ids leaves a consistent model, whatever state
  -- the old one was in.
  pub set_order-IsConsistent :
      (ids : List ℕ) (m : Model)
      → Distinct ids
      → 0 < m.page_size
      → IsConsistent (set_order before reply ids m)
  unfolding set_order set_of rebuild_positions
  set_order-IsConsistent ids m d p =
      request_missing_details-IsConsistent _
        (record {
          distinct = d;
          mirrored = λ id. refl;
          placed = λ _. rebuild_positions-placed (reordered ids m) d;
          bounded = omega arith;
          accounted = tt;
        })
        p

  -- With a positive page size, a page keeps the model consistent, whatever rows it brings and
  -- whichever generation it is for.
  pub apply_page-IsConsistent :
      (rows : List VideoRow) (requested : List ℕ) (generation : ℕ) (m : Model)
      → IsConsistent m
      → 0 < m.page_size
      → IsConsistent (apply_page before reply rows requested generation m)
  unfolding apply_page
  apply_page-IsConsistent rows requested generation m v p =
      elim (Bool-cases (generation == m.generation)) [
        | inl current ↦
            rw (current, apply_page)
              (request_missing_details-IsConsistent (apply_reply before rows requested m)
                (apply_reply-IsConsistent before rows requested m v)
                (rw (apply_reply-page_size before rows requested m v) p))
        | inr stale ↦ rw (stale, apply_page) v
      ]
