-- ===== src/Catalogue/Jobs/Frame.antt =====
-- src/catalogue/Catalogue.cpp: the dispatch of jobs reads `videos` and `roots` and never writes
-- them (dispatchJobs).
use scrub_tub.Base.{
  ℕ, zero, suc, ◌≡◌, refl, ◌∙◌, Bool, true, false, ◌&&◌, not, Option, none, some, if◌then◌else◌,
  arith, Bool-cases, inl, inr, Option-cases, leb, length,
}
use scrub_tub.Catalogue.{State, Entry, Job, RowIds, is_storyboard, find_video}
use scrub_tub.Catalogue.Jobs.{
  start_job, start_or_drop, is_held, is_over_budget, dispatch_job, dispatch_round, dispatch_loop,
  count_queued, end_dispatch, run_dispatch, dispatch_jobs, pick_job, primary_pending,
  queue_sparse_previews,
}
use scrub_tub.Catalogue.Jobs.Bounds.{Behind, run_on}

abbrev SameRows : State → State → Type 0
SameRows s t = (t.videos ≡ s.videos) × (t.roots ≡ s.roots)

SameRows-trans : (s t u : State) → SameRows s t → SameRows t u → SameRows s u
SameRows-trans s t u (a, b) (c, d) = (c ∙ a, d ∙ b)

start_or_drop-SameRows :
    (ids : RowIds) (j : Job) (o : Option Entry) (s : State) → SameRows s (start_or_drop ids j o s)
unfolding start_or_drop start_job
start_or_drop-SameRows ids j none s = (refl, refl)
start_or_drop-SameRows ids j (some v) s = (ground arith, ground arith)

dispatch_job-SameRows :
    (ids : RowIds) (primary : Bool) (j : Job) (s : State)
    → Behind (SameRows s) (dispatch_job ids primary j s)
unfolding dispatch_job
dispatch_job-SameRows ids primary j s =
    elim (Bool-cases (is_storyboard j.kind && is_held primary s)) [
      | inl e ↦ rw e (refl, refl)
      | inr e ↦ elim (Bool-cases (is_storyboard j.kind && is_over_budget s)) [
        | inl o ↦ rw (e, o) (refl, refl)
        | inr o ↦ rw (e, o) (start_or_drop-SameRows ids j (find_video j.video_id s.videos) s)
      ]
    ]

dispatch_round-SameRows :
    (ids : RowIds) (primary : Bool) (s : State) → Behind (SameRows s) (dispatch_round ids primary s)
unfolding dispatch_round
dispatch_round-SameRows ids primary s =
    elim (Bool-cases (leb s.job_concurrency (length s.active))) [
      | inl e ↦ rw e (refl, refl)
      | inr e ↦ elim (Option-cases (pick_job s)) [
        | inl n ↦ rw (e, n) (refl, refl)
        | inr (j, p) ↦ rw (e, p) (dispatch_job-SameRows ids primary j s)
      ]
    ]

dispatch_loop-SameRows :
    (ids : RowIds) (primary : Bool) (n : ℕ) (s : State) → SameRows s (dispatch_loop ids primary n s)
unfolding dispatch_loop
dispatch_loop-SameRows ids primary zero s = (refl, refl)
dispatch_loop-SameRows ids primary (suc n) s =
    run_on (SameRows s) (dispatch_round ids primary s) (dispatch_loop ids primary n)
      (dispatch_round-SameRows ids primary s)
      (λ u same.
        SameRows-trans s u (dispatch_loop ids primary n u) same
          (dispatch_loop-SameRows ids primary n u))

end_dispatch-SameRows :
    (is_due primary : Bool) (s : State) → SameRows s (end_dispatch is_due primary s)
unfolding end_dispatch
end_dispatch-SameRows is_due primary s = (ground arith, ground arith)

queue_SameRows :
    (t : Bool) (ids : RowIds) (s : State)
    → SameRows s (if t then queue_sparse_previews ids s else s)
unfolding queue_sparse_previews
queue_SameRows true ids s = (refl, refl)
queue_SameRows false ids s = (refl, refl)

run_dispatch-SameRows :
    (ids : RowIds) (is_due : Bool) (s : State) → SameRows s (run_dispatch ids is_due s)
unfolding run_dispatch
run_dispatch-SameRows ids is_due s =
    let primary = primary_pending s in
    let queue = not primary && not s.sparse_pass_queued in
    let t = if queue then queue_sparse_previews ids s else s in
    let n = suc (count_queued t.jobs) in
    let u = dispatch_loop ids primary n t in
    SameRows-trans s u (end_dispatch is_due primary u)
      (SameRows-trans s t u (queue_SameRows queue ids s) (dispatch_loop-SameRows ids primary n t))
      (end_dispatch-SameRows is_due primary u)

pub dispatch_jobs-videos :
    (ids : RowIds) (is_due : Bool) (s : State) → (dispatch_jobs ids is_due s).videos ≡ s.videos
unfolding dispatch_jobs
dispatch_jobs-videos ids is_due s = ground (arith, (run_dispatch-SameRows ids is_due s).0)

pub dispatch_jobs-roots :
    (ids : RowIds) (is_due : Bool) (s : State) → (dispatch_jobs ids is_due s).roots ≡ s.roots
unfolding dispatch_jobs
dispatch_jobs-roots ids is_due s = ground (arith, (run_dispatch-SameRows ids is_due s).1)
