-- ===== src/Catalogue/Jobs/Bounds.antt =====
-- src/catalogue/Catalogue.cpp: the bounds that the dispatch of jobs keeps (dispatchJobs).
use scrub_tub.Base.{
  ℕ, zero, suc, ◌+◌, ◌*◌, ◌≤◌, ◌<◌, ◌≡◌, refl, Bool, true, false, ◌&&◌, ◌||◌, not, Option, none,
  some, List, [], ◌∷◌, ◌++◌, ◌==◌, leb, if◌then◌else◌, length, length-append, arith, Bool-cases,
  inl, inr, Option-cases, Text, codes, eq_text, map,
}
use scrub_tub.Catalogue.{
  State, Entry, Job, ActiveJob, RowIds, is_storyboard, find_video, emit_progress, kill_active_jobs,
}
use scrub_tub.Catalogue.Jobs.{
  sparse_preview_max_bytes, sparse_preview_cache_bytes, count_previews, preview_bytes, Turn, next,
  stop, start_job, worker_of, delete_job, start_or_drop, is_held, is_over_budget, dispatch_job,
  dispatch_round, dispatch_loop, count_queued, end_dispatch, run_dispatch, dispatch_jobs, pick_job,
  primary_pending, queue_sparse_previews,
}

-- No more workers and previews than allowed, and room for what the running previews may write.
pub record IsWithin (s : State) : Type 0 where
  pub workers : length s.active ≤ s.job_concurrency
  pub previews : count_previews s.active ≤ s.preview_concurrency
  pub budget :
      preview_bytes s.cache + count_previews s.active * sparse_preview_max_bytes
      ≤ sparse_preview_cache_bytes

count_previews-append_one :
    (l : List ActiveJob) (a : ActiveJob)
    → count_previews (l ++ a ∷ []) ≡ count_previews l + (if is_storyboard a.kind then 1 else 0)
count_previews-append_one [] a = ground arith
count_previews-append_one (b ∷ l) a = ground (arith, count_previews-append_one l a)

-- The bounds that a job needs before it starts.
record HasRoom (j : Job) (s : State) : Type 0 where
  free : length s.active < s.job_concurrency
  few : is_storyboard j.kind ≡ true → count_previews s.active < s.preview_concurrency
  space :
      is_storyboard j.kind ≡ true
      → preview_bytes s.cache + (count_previews s.active + 1) * sparse_preview_max_bytes
        ≤ sparse_preview_cache_bytes

if-IsWithin : (t : Bool) (a b : State) → IsWithin a → IsWithin b → IsWithin (if t then a else b)
if-IsWithin true a b h k = h
if-IsWithin false a b h k = k

start_job-IsWithin :
    (ids : RowIds) (j : Job) (v : Entry) (s : State)
    → HasRoom j s
    → IsWithin s
    → IsWithin (start_job ids j v s)
unfolding start_job
start_job-IsWithin ids j v s r h =
    let more = count_previews-append_one s.active (worker_of ids j v s) in
    let longer = length-append s.active (worker_of ids j v s ∷ []) in
    elim (Bool-cases (is_storyboard j.kind)) [
      | inl e ↦
          let one : count_previews (s.active ++ worker_of ids j v s ∷ [])
              ≡ count_previews s.active + 1 =
            ground (arith, more, e) in
          record {
            workers = omega (arith, longer, r.free);
            previews = omega (arith, one, r.few e);
            budget = rw one (r.space e);
          }
      | inr e ↦
          let same : count_previews (s.active ++ worker_of ids j v s ∷ [])
              ≡ count_previews s.active =
            ground (arith, more, e) in
          record {
            workers = omega (arith, longer, r.free);
            previews = omega (arith, same, h.previews);
            budget = rw same (h.budget);
          }
    ]

delete_job-IsWithin : (id : ℕ) (s : State) → IsWithin s → IsWithin (delete_job id s)
delete_job-IsWithin id s h = record {
  workers = h.workers;
  previews = h.previews;
  budget = h.budget;
}

start_or_drop-IsWithin :
    (ids : RowIds) (j : Job) (o : Option Entry) (s : State)
    → HasRoom j s
    → IsWithin s
    → IsWithin (start_or_drop ids j o s)
unfolding start_or_drop
start_or_drop-IsWithin ids j none s r h = delete_job-IsWithin j.id s h
start_or_drop-IsWithin ids j (some v) s r h =
    if-IsWithin (v.revision == j.revision) (start_job ids j v s) (delete_job j.id s)
      (start_job-IsWithin ids j v s r h) (delete_job-IsWithin j.id s h)

-- The state behind a round, whether the loop goes on or breaks.
abbrev pub Behind : (State → Type 0) → Turn → Type 0
Behind P (next t) = P t
Behind P (stop t) = P t

room_for :
    (primary : Bool) (j : Job) (s : State)
    → leb s.job_concurrency (length s.active) ≡ false
    → (is_storyboard j.kind && is_held primary s) ≡ false
    → (is_storyboard j.kind && is_over_budget s) ≡ false
    → HasRoom j s
room_for primary j s free held over = record {
  free = ground arith;
  few = λ e. ground arith;
  space = λ e. ground arith;
}

dispatch_job-IsWithin :
    (ids : RowIds) (primary : Bool) (j : Job) (s : State)
    → leb s.job_concurrency (length s.active) ≡ false
    → IsWithin s
    → Behind IsWithin (dispatch_job ids primary j s)
unfolding dispatch_job
dispatch_job-IsWithin ids primary j s free h =
    elim (Bool-cases (is_storyboard j.kind && is_held primary s)) [
      | inl e ↦ rw e h
      | inr e ↦ elim (Bool-cases (is_storyboard j.kind && is_over_budget s)) [
        | inl o ↦
            rw (e, o) (record { workers = h.workers; previews = h.previews; budget = h.budget })
        | inr o ↦
            rw (e, o)
              (start_or_drop-IsWithin ids j (find_video j.video_id s.videos) s
                (room_for primary j s free e o) h)
      ]
    ]

dispatch_round-IsWithin :
    (ids : RowIds) (primary : Bool) (s : State)
    → IsWithin s
    → Behind IsWithin (dispatch_round ids primary s)
unfolding dispatch_round
dispatch_round-IsWithin ids primary s h =
    elim (Bool-cases (leb s.job_concurrency (length s.active))) [
      | inl e ↦ rw e h
      | inr e ↦ elim (Option-cases (pick_job s)) [
        | inl n ↦ rw (e, n) h
        | inr (j, p) ↦ rw (e, p) (dispatch_job-IsWithin ids primary j s e h)
      ]
    ]

-- The loop keeps what each round keeps.
pub run_on :
    (P : State → Type 0) (t : Turn) (f : State → State)
    → Behind P t
    → ((u : State) → P u → P (f u))
    → P (elim t [ stop u ↦ u | next u ↦ f u ])
run_on P (next u) f h k = k u h
run_on P (stop u) f h k = h

dispatch_loop-IsWithin :
    (ids : RowIds) (primary : Bool) (n : ℕ) (s : State)
    → IsWithin s
    → IsWithin (dispatch_loop ids primary n s)
unfolding dispatch_loop
dispatch_loop-IsWithin ids primary zero s h = h
dispatch_loop-IsWithin ids primary (suc n) s h =
    run_on IsWithin (dispatch_round ids primary s) (dispatch_loop ids primary n)
      (dispatch_round-IsWithin ids primary s h) (λ u. dispatch_loop-IsWithin ids primary n u)

emit_progress-IsWithin : (m : Text) (s : State) → IsWithin s → IsWithin (emit_progress m s)
emit_progress-IsWithin m s h = record {
  workers = h.workers;
  previews = h.previews;
  budget = h.budget;
}

queue_sparse_previews-IsWithin :
    (ids : RowIds) (s : State) → IsWithin s → IsWithin (queue_sparse_previews ids s)
unfolding queue_sparse_previews
queue_sparse_previews-IsWithin ids s h = record {
  workers = h.workers;
  previews = h.previews;
  budget = h.budget;
}

flag_scan-IsWithin : (s : State) → IsWithin s → IsWithin (record s { scan_active = false })
flag_scan-IsWithin s h = record { workers = h.workers; previews = h.previews; budget = h.budget }

end_dispatch-IsWithin :
    (is_due primary : Bool) (s : State) → IsWithin s → IsWithin (end_dispatch is_due primary s)
unfolding end_dispatch
end_dispatch-IsWithin is_due primary s h =
    let is_idle = leb (length s.active) 0 in
    let ended = is_idle && (s.scan_active && leb (count_queued s.jobs) 0) in
    let off = record s { scan_active = false } in
    let t = if ended then off else s in
    let text : Text =
      if t.scan_active || not is_idle
      then (if primary then codes "probing" else codes "previews")
      else codes "complete" in
    let k = if-IsWithin ended off s (flag_scan-IsWithin s h) h in
    if-IsWithin (eq_text text t.scan_state && not is_due) t (emit_progress text t) k
      (emit_progress-IsWithin text t k)

run_dispatch-IsWithin :
    (ids : RowIds) (is_due : Bool) (s : State) → IsWithin s → IsWithin (run_dispatch ids is_due s)
unfolding run_dispatch
run_dispatch-IsWithin ids is_due s h =
    let primary = primary_pending s in
    let queue = not primary && not s.sparse_pass_queued in
    let t = if queue then queue_sparse_previews ids s else s in
    let k =
      if-IsWithin queue (queue_sparse_previews ids s) s (queue_sparse_previews-IsWithin ids s h)
        h in
    let n = suc (count_queued t.jobs) in
    end_dispatch-IsWithin is_due primary (dispatch_loop ids primary n t)
      (dispatch_loop-IsWithin ids primary n t k)

count_previews-kill :
    (l : List ActiveJob)
    → count_previews (
        map
          (λ (j : ActiveJob). if 0 == 0 || j.root_id == 0 then record j { cancelled = true } else j)
          l)
      ≡ count_previews l
count_previews-kill [] = refl
count_previews-kill (a ∷ l) = ground (arith, count_previews-kill l)

length-kill :
    (l : List ActiveJob)
    → length (
        map
          (λ (j : ActiveJob). if 0 == 0 || j.root_id == 0 then record j { cancelled = true } else j)
          l)
      ≡ length l
length-kill [] = refl
length-kill (a ∷ l) = ground (arith, length-kill l)

kill_active_jobs-IsWithin : (s : State) → IsWithin s → IsWithin (kill_active_jobs 0 s)
kill_active_jobs-IsWithin s h = record {
  workers = omega (arith, length-kill s.active, h.workers);
  previews = omega (arith, count_previews-kill s.active, h.previews);
  budget = rw (count_previews-kill s.active) h.budget;
}

-- A call of dispatchJobs keeps the running jobs within the number of workers, the running previews
-- within theirs, and the cached previews with the greatest size of the running ones within the
-- budget of the preview cache.
pub dispatch_jobs-IsWithin :
    (ids : RowIds) (is_due : Bool) (s : State) → IsWithin s → IsWithin (dispatch_jobs ids is_due s)
unfolding dispatch_jobs
dispatch_jobs-IsWithin ids is_due s h =
    let killed = record (kill_active_jobs 0 s) { scan_active = false } in
    let cancelled = emit_progress (codes "cancelled") killed in
    let later = record s { dispatch_timer = true } in
    let waiting = if s.scan_active then later else s in
    let run = run_dispatch ids is_due s in
    let k =
      emit_progress-IsWithin (codes "cancelled") killed
        (flag_scan-IsWithin (kill_active_jobs 0 s) (kill_active_jobs-IsWithin s h)) in
    if-IsWithin s.cancel_requested cancelled (if s.pause_requested then waiting else run) k (
      if-IsWithin s.pause_requested waiting run
        (if-IsWithin s.scan_active later s
          (record { workers = h.workers; previews = h.previews; budget = h.budget }) h)
        (run_dispatch-IsWithin ids is_due s h))
