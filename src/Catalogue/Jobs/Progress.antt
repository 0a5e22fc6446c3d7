-- ===== src/Catalogue/Jobs/Progress.antt =====
-- src/catalogue/Catalogue.cpp: the loop of dispatchJobs ends, and why.
use scrub_tub.Base.{
  ℕ, zero, suc, ◌≤◌, ◌<◌, ◌≡◌, ◌⊎◌, refl, Bool, true, ◌&&◌, not, Option, none, some, List, [], ◌∷◌,
  ◌==◌, leb, any, keep_if, length, arith, Bool-cases, inl, inr, Option-cases,
}
use scrub_tub.Catalogue.{
  State, Entry, Job, probe, poster, storyboard, JobState, RowIds, is_storyboard, is_queued,
  find_video, update_jobs,
}
use scrub_tub.Catalogue.Jobs.{
  Turn, next, stop, start_job, start_or_drop, first_job, is_ready, is_held, is_over_budget,
  dispatch_job, dispatch_round, dispatch_loop, count_queued, pick_job,
}

-- A queued job with this id is there.
abbrev has_queued : ℕ → List Job → Bool
has_queued id js = any (λ k. k.id == id && is_queued k.state) js

first_job-sat : (p : Job → Bool) (js : List Job) (j : Job) → first_job p js ≡ some j → p j ≡ true
first_job-sat p [] j h = cc
first_job-sat p (k ∷ ks) j h = elim (Option-cases (first_job p ks)) [
  | inl e ↦ ground (arith, e)
  | inr (m, e) ↦ ground (arith, e, first_job-sat p ks m e)
]

first_job-has_queued :
    (p : Job → Bool) (js : List Job) (j : Job)
    → ((k : Job) → p k ≡ true → is_queued k.state ≡ true)
    → first_job p js ≡ some j
    → has_queued j.id js ≡ true
first_job-has_queued p [] j q h = cc
first_job-has_queued p (k ∷ ks) j q h = elim (Option-cases (first_job p ks)) [
  | inl e ↦ ground (arith, e, q k)
  | inr (m, e) ↦ ground (arith, e, q k, first_job-has_queued p ks m q e)
]

first_job-keep_if :
    (p q : Job → Bool) (js : List Job) → first_job p js ≡ none → first_job p (keep_if q js) ≡ none
first_job-keep_if p q [] h = refl
first_job-keep_if p q (k ∷ ks) h = elim (Option-cases (first_job p ks)) [
  | inl e ↦ ground (arith, e, first_job-keep_if p q ks e)
  | inr (m, e) ↦ ground (arith, e)
]

count_queued-keep_if :
    (p : Job → Bool) (js : List Job) → count_queued (keep_if p js) ≤ count_queued js
count_queued-keep_if p [] = omega arith
count_queued-keep_if p (k ∷ ks) = ground (arith, count_queued-keep_if p ks)

delete-fewer :
    (id : ℕ) (js : List Job)
    → has_queued id js ≡ true
    → count_queued (keep_if (λ k. not (k.id == id)) js) < count_queued js
delete-fewer id [] h = cc
delete-fewer id (k ∷ ks) h =
    ground (arith, delete-fewer id ks, count_queued-keep_if (λ j. not (j.id == id)) ks)

abbrev run_job : ℕ → List Job → List Job
run_job id js = update_jobs (λ k. k.id == id) (λ k. record k { state = JobState.running }) js

run_job-le : (id : ℕ) (js : List Job) → count_queued (run_job id js) ≤ count_queued js
run_job-le id [] = omega arith
run_job-le id (k ∷ ks) = ground (arith, run_job-le id ks)

run_job-fewer :
    (id : ℕ) (js : List Job)
    → has_queued id js ≡ true
    → count_queued (run_job id js) < count_queued js
run_job-fewer id [] h = cc
run_job-fewer id (k ∷ ks) h = ground (arith, run_job-fewer id ks, run_job-le id ks)

start_or_drop-fewer :
    (ids : RowIds) (j : Job) (o : Option Entry) (s : State)
    → has_queued j.id s.jobs ≡ true
    → count_queued (start_or_drop ids j o s).jobs < count_queued s.jobs
unfolding start_or_drop start_job
start_or_drop-fewer ids j none s h = delete-fewer j.id s.jobs h
start_or_drop-fewer ids j (some v) s h =
    ground (arith, delete-fewer j.id s.jobs h, run_job-fewer j.id s.jobs h)

pick_job-has_queued : (s : State) (j : Job) → pick_job s ≡ some j → has_queued j.id s.jobs ≡ true
unfolding pick_job
pick_job-has_queued s j h = elim (Option-cases (first_job (is_ready s poster) s.jobs)) [
  | inr (k, e) ↦
      ground (arith, e, first_job-has_queued (is_ready s poster) s.jobs k (λ m r. ground arith) e)
  | inl e ↦ elim (Option-cases (first_job (is_ready s probe) s.jobs)) [
    | inr (k, f) ↦
        ground
          (arith, e, f, first_job-has_queued (is_ready s probe) s.jobs k (λ m r. ground arith) f)
    | inl f ↦
        first_job-has_queued (is_ready s storyboard) s.jobs j (λ m r. ground arith)
          (ground (arith, e, f))
  ]
]

-- Why the loop ends: all workers are busy, no job is ready, or only previews are, which must wait.
abbrev pub IsResting : Bool → State → Type 0
IsResting primary s =
    (s.job_concurrency ≤ length s.active)
    ⊎ ((pick_job s ≡ none)
        ⊎ ((j : Job) × (pick_job s ≡ some j)
            × (is_storyboard j.kind ≡ true)
            × (is_held primary s ≡ true)))

abbrev drop_previews : State → State
drop_previews s = record s {
  jobs = keep_if (λ k. not (is_storyboard k.kind && is_queued k.state)) s.jobs;
}

no_previews :
    (s : State) (js : List Job)
    → first_job
        (is_ready s storyboard)
        (keep_if (λ k. not (is_storyboard k.kind && is_queued k.state)) js)
      ≡ none
no_previews s [] = refl
no_previews s (k ∷ ks) = ground (arith, no_previews s ks)

-- Only a preview is picked behind the other kinds.
pick_preview :
    (s : State) (j : Job)
    → pick_job s ≡ some j
    → is_storyboard j.kind ≡ true
    → (first_job (is_ready s poster) s.jobs ≡ none) × (first_job (is_ready s probe) s.jobs ≡ none)
unfolding pick_job
pick_preview s j h k = elim (Option-cases (first_job (is_ready s poster) s.jobs)) [
  | inr (m, e) ↦ absurd (ground (arith, e, first_job-sat (is_ready s poster) s.jobs m e))
  | inl e ↦ elim (Option-cases (first_job (is_ready s probe) s.jobs)) [
    | inr (m, f) ↦ absurd (ground (arith, e, f, first_job-sat (is_ready s probe) s.jobs m f))
    | inl f ↦ (e, f)
  ]
]

pick_job-drop_previews :
    (s : State) (j : Job)
    → pick_job s ≡ some j
    → is_storyboard j.kind ≡ true
    → pick_job (drop_previews s) ≡ none
unfolding pick_job
pick_job-drop_previews s j h k =
    let (e, f) = pick_preview s j h k in
    let q = λ (m : Job). not (is_storyboard m.kind && is_queued m.state) in
    let no_poster = first_job-keep_if (is_ready s poster) q s.jobs e in
    let no_probe = first_job-keep_if (is_ready s probe) q s.jobs f in
    ground (arith, no_poster, no_probe, no_previews s s.jobs)

-- A round leaves fewer queued jobs, or the loop rests.
abbrev Advances : Bool → State → Turn → Type 0
Advances primary s (next t) = count_queued t.jobs < count_queued s.jobs
Advances primary s (stop t) = IsResting primary t

dispatch_job-Advances :
    (ids : RowIds) (primary : Bool) (j : Job) (s : State)
    → pick_job s ≡ some j
    → Advances primary s (dispatch_job ids primary j s)
unfolding dispatch_job
dispatch_job-Advances ids primary j s p =
    let fewer =
      start_or_drop-fewer ids j (find_video j.video_id s.videos) s (pick_job-has_queued s j p) in
    elim (Bool-cases (is_storyboard j.kind)) [
      | inr k ↦ rw k fewer
      | inl k ↦ elim (Bool-cases (is_held primary s)) [
        | inl w ↦ rw (k, w) (inr (inr (j, p, k, w)))
        | inr w ↦ elim (Bool-cases (is_over_budget s)) [
          | inl o ↦ rw (k, w, o) (inr (inl (pick_job-drop_previews s j p k)))
          | inr o ↦ rw (k, w, o) fewer
        ]
      ]
    ]

dispatch_round-Advances :
    (ids : RowIds) (primary : Bool) (s : State) → Advances primary s (dispatch_round ids primary s)
unfolding dispatch_round
dispatch_round-Advances ids primary s =
    elim (Bool-cases (leb s.job_concurrency (length s.active))) [
      | inl e ↦ rw e (inl (ground arith))
      | inr e ↦ elim (Option-cases (pick_job s)) [
        | inl n ↦ rw (e, n) (inr (inl n))
        | inr (j, p) ↦ rw (e, p) (dispatch_job-Advances ids primary j s p)
      ]
    ]

rest_on :
    (primary : Bool) (s : State) (t : Turn) (f : State → State)
    → Advances primary s t
    → ((u : State) → count_queued u.jobs < count_queued s.jobs → IsResting primary (f u))
    → IsResting primary (elim t [ stop u ↦ u | next u ↦ f u ])
rest_on primary s (next u) f h k = k u h
rest_on primary s (stop u) f h k = h

-- With more rounds than queued jobs the loop of dispatchJobs ends by itself: then all workers are
-- busy, or no job is ready to start, or the next job is a preview that waits for primary work or for
-- the running previews.
pub dispatch_loop-IsResting :
    (ids : RowIds) (primary : Bool) (n : ℕ) (s : State)
    → count_queued s.jobs < n
    → IsResting primary (dispatch_loop ids primary n s)
unfolding dispatch_loop
dispatch_loop-IsResting ids primary zero s h = omega arith
dispatch_loop-IsResting ids primary (suc n) s h =
    rest_on primary s (dispatch_round ids primary s) (dispatch_loop ids primary n)
      (dispatch_round-Advances ids primary s)
      (λ u fewer. dispatch_loop-IsResting ids primary n u (omega arith))
