-- ===== src/Catalogue/Jobs.antt =====
-- src/catalogue/Catalogue.cpp: the dispatch of queued jobs to workers (dispatchJobs,
-- queueSparsePreviews) and the user's controls (pauseScanning, resumeScanning, cancelScanning).
pub mod Bounds
pub mod Frame
pub mod Progress
pub mod Tests
use scrub_tub.Base.{
  ℕ, zero, suc, ◌+◌, ◌*◌, Bool, true, false, ◌&&◌, ◌||◌, not, Option, none, some, List, [], ◌∷◌,
  ◌++◌, map, ◌==◌, ltb, leb, if◌then◌else◌, any, keep_if, length, is_some, Text, codes, eq_text,
}
use scrub_tub.Catalogue.{
  State, Entry, Job, CacheEntry, Kind, JobState, ActiveJob, RowIds, emit_progress,
  emit_progress_throttled, kill_active_jobs, find_video, find_root, update_jobs, queue_job,
  is_storyboard, is_ok, is_available, eq_kind, is_queued, is_waiting, storyboard_profile, or_zero,
}

-- `Extract.h`
abbrev pub sparse_preview_max_bytes : ℕ
sparse_preview_max_bytes = 65536

abbrev pub sparse_preview_cache_bytes : ℕ
sparse_preview_cache_bytes = 134217728

-- The WHERE clause of `queueSparsePreviews`.
pub is_eligible : List CacheEntry → Entry → Bool
is_eligible cache v =
    is_ok v.probe_status
    && (is_available v.availability
        && (ltb 0 (or_zero v.media.duration_ms)
            && (any
                  (λ c.
                    c.video_id == v.id && (c.revision == v.revision && eq_kind c.kind Kind.poster))
                  cache
                && not (
                    any
                      (λ c.
                        c.video_id == v.id
                        && (c.revision == v.revision && eq_text c.profile storyboard_profile))
                      cache))))

-- One job for each such row; the rows stand in the order of their ids.
pub queue_eligible : RowIds → List CacheEntry → List Entry → List Job → List Job
queue_eligible ids cache [] js = js
queue_eligible ids cache (v ∷ vs) js =
    queue_eligible ids cache vs
      (if is_eligible cache v then queue_job ids v.id v.revision Kind.storyboard js else js)

pub queue_sparse_previews : RowIds → State → State
queue_sparse_previews ids s = record s {
  jobs = queue_eligible ids s.cache s.videos s.jobs;
  sparse_pass_queued = true;
}

abbrev pub primary_pending : State → Bool
primary_pending s = any (λ j. not (is_storyboard j.kind) && is_waiting j.state) s.jobs

-- The JOINs of the query for a job.
abbrev pub root_of_job : State → Job → Option ℕ
root_of_job s j = elim (find_video j.video_id s.videos) [
  | none ↦ none
  | some v ↦ elim (find_root v.root_id s.roots) [ none ↦ none | some r ↦ some r.id ]
]

-- `ORDER BY j.id LIMIT 1`
abbrev pub first_job : (Job → Bool) → List Job → Option Job
first_job p [] = none
first_job p (j ∷ js) = elim (first_job p js) [
  | none ↦ if p j then some j else none
  | some k ↦ if p j && ltb j.id k.id then some j else some k
]

abbrev pub is_ready : State → Kind → Job → Bool
is_ready s kind j = is_queued j.state && (eq_kind j.kind kind && is_some (root_of_job s j))

-- Posters before probes, and storyboards last.
pub pick_job : State → Option Job
pick_job s = elim (first_job (is_ready s Kind.poster) s.jobs) [
  | some j ↦ some j
  | none ↦ elim (first_job (is_ready s Kind.probe) s.jobs) [
    | some j ↦ some j
    | none ↦ first_job (is_ready s Kind.storyboard) s.jobs
  ]
]

abbrev pub count_previews : List ActiveJob → ℕ
count_previews active = length (keep_if (λ a. is_storyboard a.kind) active)

abbrev pub preview_bytes : List CacheEntry → ℕ
preview_bytes [] = 0
preview_bytes (c ∷ cs) = (if is_storyboard c.kind then c.bytes else 0) + preview_bytes cs

-- The loop goes on or breaks.
pub data Turn : Type 0 where
  next stop : State → Turn

abbrev pub worker_of : RowIds → Job → Entry → State → ActiveJob
worker_of ids j v s = record {
  address = ids.address s.active;
  job_id = j.id;
  root_id = or_zero (root_of_job s j);
  video_id = j.video_id;
  revision = j.revision;
  kind = j.kind;
  duration_ms = v.media.duration_ms;
  stream_index = or_zero v.media.stream_index;
  cancelled = false;
}

pub start_job : RowIds → Job → Entry → State → State
start_job ids j v s = record s {
  jobs = update_jobs (λ k. k.id == j.id) (λ k. record k { state = JobState.running }) s.jobs;
  active = s.active ++ worker_of ids j v s ∷ [];
  scan_active = true;
}

abbrev pub delete_job : ℕ → State → State
delete_job id s = record s { jobs = keep_if (λ k. not (k.id == id)) s.jobs }

-- An obsolete job is deleted, any other starts.
pub start_or_drop : RowIds → Job → Option Entry → State → State
start_or_drop ids j none s = delete_job j.id s
start_or_drop ids j (some v) s =
    if v.revision == j.revision then start_job ids j v s else delete_job j.id s

-- The barrier of the second pass: primary work, or enough previews.
abbrev pub is_held : Bool → State → Bool
is_held primary s = primary || leb s.preview_concurrency (count_previews s.active)

abbrev pub is_over_budget : State → Bool
is_over_budget s =
    ltb sparse_preview_cache_bytes
      (preview_bytes s.cache + (count_previews s.active + 1) * sparse_preview_max_bytes)

pub dispatch_job : RowIds → Bool → Job → State → Turn
dispatch_job ids primary j s =
    if is_storyboard j.kind && is_held primary s
    then stop s
    else (if is_storyboard j.kind && is_over_budget s
        then stop (record s {
          jobs = keep_if (λ k. not (is_storyboard k.kind && is_queued k.state)) s.jobs;
        })
        else next (start_or_drop ids j (find_video j.video_id s.videos) s))

-- One round of the loop.
pub dispatch_round : RowIds → Bool → State → Turn
dispatch_round ids primary s =
    if leb s.job_concurrency (length s.active)
    then stop s
    else (elim (pick_job s) [ none ↦ stop s | some j ↦ dispatch_job ids primary j s ])

-- The loop, on fuel.
pub dispatch_loop : RowIds → Bool → ℕ → State → State
dispatch_loop ids primary zero s = s
dispatch_loop ids primary (suc n) s = elim (dispatch_round ids primary s) [
  | stop t ↦ t
  | next t ↦ dispatch_loop ids primary n t
]

abbrev pub count_queued : List Job → ℕ
count_queued js = length (keep_if (λ j. is_queued j.state) js)

-- What `dispatchJobs` does behind its loop.
pub end_dispatch : Bool → Bool → State → State
end_dispatch is_due primary s =
    let is_idle = leb (length s.active) 0 in
    let t =
      if is_idle && (s.scan_active && leb (count_queued s.jobs) 0)
      then record s { scan_active = false }
      else s in
    emit_progress_throttled is_due
      (if t.scan_active || not is_idle
        then (if primary then codes "probing" else codes "previews")
        else codes "complete")
      t

pub run_dispatch : RowIds → Bool → State → State
run_dispatch ids is_due s =
    let primary = primary_pending s in
    let t = if not primary && not s.sparse_pass_queued then queue_sparse_previews ids s else s in
    end_dispatch is_due primary (dispatch_loop ids primary (suc (count_queued t.jobs)) t)

-- `dispatchJobs`
pub dispatch_jobs : RowIds → Bool → State → State
dispatch_jobs ids is_due s =
    if s.cancel_requested
    then emit_progress (codes "cancelled") (record (kill_active_jobs 0 s) { scan_active = false })
    else (if s.pause_requested
        then (if s.scan_active then record s { dispatch_timer = true } else s)
        else run_dispatch ids is_due s)

pub pause_scanning : State → State
pause_scanning s =
    let t = record s { pause_requested = true } in
    if s.scan_active then emit_progress (codes "paused") t else t

pub resume_scanning : State → State
resume_scanning s =
    let t = record s { pause_requested = false } in
    if s.scan_active then emit_progress (codes "probing") t else t

pub cancel_scanning : State → State
cancel_scanning s =
    if s.scan_active
    then emit_progress (codes "cancelled")
        (kill_active_jobs 0 (record s { cancel_requested = true; pause_requested = false }))
    else s
