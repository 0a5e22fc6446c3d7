-- ===== src/Catalogue/Finish.antt =====
-- src/catalogue/Catalogue.cpp: the results of the workers (finishJob, applyProbeResult,
-- enqueuePreviewJobs, applyExtractResult). The probe and the extraction are arguments, as what they
-- return; a text cut to its first characters is `take`.
pub mod Stale
pub mod Tests
use scrub_tub.Base.{
  ℕ, zero, suc, ◌+◌, Bool, true, false, ◌&&◌, ◌||◌, not, Option, none, some, List, [], ◌∷◌, ◌++◌,
  map, ◌==◌, ltb, leb, if◌then◌else◌, any, keep_if, length, take, is_some, Text, codes, eq_text,
}
use scrub_tub.Catalogue.{
  State, Entry, Job, CacheEntry, Media, Kind, JobState, Availability, ProbeStatus, ActiveJob,
  RowIds, Signal, emits, emit_row, find_video, update_video, update_jobs, queue_job, is_storyboard,
  is_ok, eq_kind, is_running, is_job_of, poster_profile, storyboard_profile, or_zero,
}
use scrub_tub.Probe.{FailKind, no_failure, bad_media, transient_io, timeout, ProbeResult}
use scrub_tub.Catalogue.Jobs.{dispatch_jobs, delete_job}
use scrub_tub.Catalogue.Cache.{enforce_cache_limit}

-- `ExtractResult`, with the size and the name of its artifact.
pub record ExtractResult : Type 0 where
  pub ok : Bool
  pub error : Text
  pub bytes : ℕ
  pub artifact : Text
  pub sample_times_ms : List ℕ
  pub now : ℕ

pub data Outcome : Type 0 where
  probed : ProbeResult → Outcome
  extracted : ExtractResult → Outcome

abbrev pub positive : Bool → ℕ → Option ℕ
positive t n = if t then some n else none

abbrev pub media_of : ProbeResult → Media
media_of r =
    let is_sized = ltb 0 r.coded_width in
    record {
      duration_ms = positive (ltb 0 r.duration_ms) r.duration_ms;
      coded_width = positive is_sized r.coded_width;
      coded_height = positive is_sized r.coded_height;
      display_width = positive is_sized r.display_width;
      display_height = positive is_sized r.display_height;
      rotation_deg = some r.rotation_deg;
      codec = some r.codec;
      stream_index = some r.selected_stream_index;
    }

-- `UPDATE videos SET ... WHERE id=? AND revision=?`
abbrev pub update_revision : ℕ → ℕ → (Entry → Entry) → State → State
update_revision video revision f s = record s {
  videos = update_video video (λ v. if v.revision == revision then f v else v) s.videos;
}

-- The jobs that `INSERT OR IGNORE` adds, and whether it added one.
abbrev pub queue_missing : RowIds → Entry → Kind → (CacheEntry → Bool) → State → State
queue_missing ids v kind p s =
    if any (λ c. c.video_id == v.id && (c.revision == v.revision && p c)) s.cache
    then s
    else record s { jobs = queue_job ids v.id v.revision kind s.jobs }

abbrev pub is_longer : State → State → Bool
is_longer new old = ltb (length old.jobs) (length new.jobs)

abbrev pub queue_poster : RowIds → Entry → State → State
queue_poster ids v s =
    let t = queue_missing ids v Kind.poster (λ c. eq_kind c.kind Kind.poster) s in
    if is_longer t s then record t { sparse_pass_queued = false } else t

abbrev pub queue_storyboard : RowIds → Bool → Entry → State → State
queue_storyboard ids wanted v s =
    if wanted && ltb 0 (or_zero v.media.duration_ms)
    then queue_missing ids v Kind.storyboard (λ c. eq_text c.profile storyboard_profile) s
    else s

-- `enqueuePreviewJobs`
pub enqueue_preview_jobs : RowIds → ℕ → Bool → State → State
enqueue_preview_jobs ids video include_storyboard s = elim (find_video video s.videos) [
  | none ↦ s
  | some v ↦
      if is_ok v.probe_status
      then (let t = queue_storyboard ids include_storyboard v (queue_poster ids v s) in
          if is_longer t s then record t { dispatch_timer = true } else t)
      else s
]

-- `requestStoryboard` and `requestPoster`
pub request_storyboard : RowIds → ℕ → State → State
request_storyboard ids video s = enqueue_preview_jobs ids video true s

pub request_poster : RowIds → ℕ → State → State
request_poster ids video s = enqueue_preview_jobs ids video false s

abbrev pub may_retry : (Job → Bool) → Job → Bool
may_retry p j = p j && (is_running j.state && ltb j.retries 1)

-- `UPDATE jobs SET retries=retries+1, state='queued', error=? ...`
abbrev pub retry_jobs : (Job → Bool) → Text → State → State
retry_jobs p message s = record s {
  jobs =
      update_jobs (may_retry p)
        (λ j. record j { retries = j.retries + 1; state = JobState.queued; message = message })
        s.jobs;
}

abbrev pub fail_jobs : (Job → Bool) → Text → State → State
fail_jobs p message s = record s {
  jobs =
      update_jobs p (λ j. record j { state = JobState.failed; message = take 500 message }) s.jobs;
}

pub store_probe : RowIds → ℕ → ℕ → ProbeResult → State → State
store_probe ids video revision r s =
    let stored =
      update_revision video revision
        (λ v. record v {
          probe_status = ProbeStatus.ok;
          availability = Availability.available;
          media = media_of r;
          probe_error = [];
        })
        s in
    let noted =
      emits (Signal.auto_tags_applied video)
        (emits (Signal.search_record_refreshed video) stored) in
    enqueue_preview_jobs ids video false (emit_row video noted)

abbrev pub failed_status : FailKind → ProbeStatus
failed_status timeout = ProbeStatus.timeout
failed_status _ = ProbeStatus.error

abbrev pub is_transient : FailKind → Bool
is_transient transient_io = true
is_transient _ = false

abbrev pub is_retried : ℕ → ProbeResult → State → Bool
is_retried video r s = is_transient r.fail_kind && any (may_retry (λ j. j.video_id == video)) s.jobs

pub fail_probe : ℕ → ℕ → ProbeResult → State → State
fail_probe video revision r s = emit_row video (
    if is_retried video r s
    then retry_jobs (λ j. j.video_id == video) r.error s
    else fail_jobs (λ j. j.video_id == video && j.revision == revision) r.error
        (update_revision video revision
          (λ v. record v {
            probe_status = failed_status r.fail_kind;
            availability = Availability.unavailable;
            probe_error = take 500 r.error;
          })
          s))

-- `applyProbeResult` and the deletion of a finished job.
pub apply_probe_result : RowIds → ActiveJob → ProbeResult → State → State
apply_probe_result ids j r s0 =
    let s = record s0 { probed = s0.probed + 1 } in
    if r.ok
    then delete_job j.job_id (store_probe ids j.video_id j.revision r s)
    else (let t = fail_probe j.video_id j.revision r (record s { errors = s.errors + 1 }) in
        if is_retried j.video_id r s then t else delete_job j.job_id t)

abbrev pub profile_of : Kind → Text
profile_of Kind.poster = poster_profile
profile_of _ = storyboard_profile

abbrev pub is_same_artifact : CacheEntry → CacheEntry → Bool
is_same_artifact c d =
    d.video_id == c.video_id && (d.revision == c.revision && eq_text d.profile c.profile)

-- `INSERT OR REPLACE INTO cache_entries`
abbrev pub insert_entry : CacheEntry → List CacheEntry → List CacheEntry
insert_entry c cs = keep_if (λ d. not (is_same_artifact c d)) cs ++ c ∷ []

abbrev pub entry_of : ActiveJob → ExtractResult → CacheEntry
entry_of j r = record {
  video_id = j.video_id;
  revision = j.revision;
  profile = profile_of j.kind;
  kind = j.kind;
  rel_path = r.artifact;
  bytes = r.bytes;
  sample_times = r.sample_times_ms;
  last_access_ms = r.now;
}

abbrev pub cache_artifact : ActiveJob → ExtractResult → State → State
cache_artifact j r s = delete_job j.job_id (record s {
  cache = insert_entry (entry_of j r) s.cache;
  cache_bytes = elim s.cache_bytes [ none ↦ none | some n ↦ some (n + r.bytes) ];
})

pub store_extract : ActiveJob → ExtractResult → State → State
store_extract j r s = enforce_cache_limit (
    emit_row j.video_id
      (emits (Signal.cache_entry_changed j.video_id (profile_of j.kind)) (cache_artifact j r s)))

-- `applyExtractResult`
pub apply_extract_result : ActiveJob → ExtractResult → State → State
apply_extract_result j r s =
    if r.ok
    then store_extract j r s
    else emits (Signal.operation_failed (codes "Preview generation failed: " ++ take 200 r.error)) (
        let t = record s { errors = s.errors + 1 } in
        if any (may_retry (λ k. k.id == j.job_id)) s.jobs
        then retry_jobs (λ k. k.id == j.job_id) r.error t
        else fail_jobs (λ k. k.id == j.job_id) r.error t)

abbrev pub find_active : ℕ → List ActiveJob → Option ActiveJob
find_active address [] = none
find_active address (j ∷ js) = if j.address == address then some j else find_active address js

-- `m_activeJobs.removeOne`
abbrev pub remove_active : ℕ → List ActiveJob → List ActiveJob
remove_active address [] = []
remove_active address (j ∷ js) = if j.address == address then js else j ∷ remove_active address js

abbrev pub is_current : ActiveJob → State → Bool
is_current j s = elim (find_video j.video_id s.videos) [
  | none ↦ false
  | some v ↦ v.revision == j.revision
]

-- What `finishJob` does with a result before it dispatches.
pub settle_job : RowIds → ActiveJob → Outcome → State → State
settle_job ids j outcome s =
    if j.cancelled && not s.cancel_requested
    then s
    else (if s.cancel_requested
        then record s {
          jobs =
              update_jobs (λ k. k.id == j.job_id) (λ k. record k { state = JobState.queued })
                s.jobs;
        }
        else (if not (is_current j s) then delete_job j.job_id s else (elim outcome [
          | probed r ↦ apply_probe_result ids j r s
          | extracted r ↦ apply_extract_result j r s
        ])))

-- `finishJob` for the job at an address.
pub finish_job : RowIds → Bool → ℕ → Outcome → State → State
finish_job ids is_due address outcome s = elim (find_active address s.active) [
  | none ↦ s
  | some j ↦
      dispatch_jobs ids is_due
        (settle_job ids j outcome (record s { active = remove_active address s.active }))
]
