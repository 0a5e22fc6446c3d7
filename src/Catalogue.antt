-- ===== src/Catalogue.antt =====
-- src/catalogue/Catalogue.{h,cpp}: the state of the catalogue, which is its tables and the counters
-- and flags of its thread, with the SQL that several operations share. A row of a table is a record,
-- NULL is `none`, and -1 for "unknown" in `m_cacheBytes` too.
pub mod Scan
pub mod Rows
pub mod Jobs
pub mod Finish
pub mod Cache
pub mod Roots
pub mod Session
pub mod Fixtures
use scrub_tub.Base.{
  ℕ, ◌+◌, Bool, true, false, ◌&&◌, ◌||◌, not, Option, none, some, List, [], ◌∷◌, ◌++◌, map, ◌==◌,
  if◌then◌else◌, any, keep_if, length, is_some, elem, ℤ, pos, minus_one, eq_ℤ, Text, codes, eq_text,
}
use scrub_tub.Row.{VideoRow, default_row, ScanProgress}

pub data Availability : Type 0 where
  unprobed available missing unavailable : Availability

pub data ProbeStatus : Type 0 where
  pending ok error timeout : ProbeStatus

pub data Kind : Type 0 where
  probe poster storyboard : Kind

pub data JobState : Type 0 where
  queued running failed : JobState

-- What a probe extracts, the columns that a changed file loses and the index of its stream.
pub record Media : Type 0 where
  pub duration_ms : Option ℕ
  pub coded_width : Option ℕ
  pub coded_height : Option ℕ
  pub display_width : Option ℕ
  pub display_height : Option ℕ
  pub rotation_deg : Option ℕ
  pub codec : Option Text
  pub stream_index : Option ℕ

-- What the user attached to a video.
pub record Annotations : Type 0 where
  pub rating : Option ℕ
  pub views : ℕ
  pub added_ms : ℕ
  pub last_opened_ms : Option ℕ

-- A row of `videos`.
pub record Entry : Type 0 where
  pub id : ℕ
  pub root_id : ℕ
  pub rel_path : Text
  pub cmp_key : Text
  pub file_name : Text
  pub size_bytes : ℤ
  pub mtime_ms : ℤ
  pub revision : ℕ
  pub media : Media
  pub notes : Annotations
  pub availability : Availability
  pub probe_status : ProbeStatus
  pub probe_error : Text
  pub seen_generation : Option ℕ

-- A row of `jobs`.
pub record Job : Type 0 where
  pub id : ℕ
  pub video_id : ℕ
  pub revision : ℕ
  pub kind : Kind
  pub state : JobState
  pub retries : ℕ
  pub message : Text

-- A row of `cache_entries`.
pub record CacheEntry : Type 0 where
  pub video_id : ℕ
  pub revision : ℕ
  pub profile : Text
  pub kind : Kind
  pub rel_path : Text
  pub bytes : ℕ
  pub sample_times : List ℕ
  pub last_access_ms : ℕ

-- A row of `roots`.
pub record Root : Type 0 where
  pub id : ℕ
  pub path : Text
  pub cmp_key : Text
  pub is_missing : Bool
  pub include_hidden : Bool
  pub scan_generation : ℕ
  pub last_complete_scan_ms : Option ℕ

-- A job that a worker runs; the address is the identity of the object.
pub record ActiveJob : Type 0 where
  pub address : ℕ
  pub job_id : ℕ
  pub root_id : ℕ
  pub video_id : ℕ
  pub revision : ℕ
  pub kind : Kind
  pub duration_ms : Option ℕ
  pub stream_index : ℕ
  pub cancelled : Bool

-- What the catalogue emits, and its calls of the search index and of the tag store.
pub data Signal : Type 0 where
  root_added : ℕ → Signal
  root_removed : ℕ → Signal
  root_rejected : Text → Signal
  operation_failed : Text → Signal
  rows_changed : List VideoRow → Bool → Signal
  scan_progress : ScanProgress → Signal
  cache_entry_changed : ℕ → Text → Signal
  cache_usage_ready : ℕ → Signal
  rating_committed : ℕ → ℕ → Signal
  trash_result : ℕ → Bool → Text → Signal
  hover_source_ready : ℕ → ℕ → Text → ℤ → Signal
  backup_exported : Text → Signal
  backup_imported : Signal
  search_record_refreshed : ℕ → Signal
  auto_tags_applied : ℕ → Signal

pub record State : Type 0 where
  pub roots : List Root
  pub videos : List Entry
  pub jobs : List Job
  pub cache : List CacheEntry
  pub in_transaction : Bool
  pub removed_files : List Text
  pub signals : List Signal
  pub pause_requested : Bool
  pub cancel_requested : Bool
  pub scan_active : Bool
  pub scan_force : Bool
  pub scanned_root : ℕ
  pub scan_state : Text
  pub sparse_pass_queued : Bool
  pub dispatch_timer : Bool
  pub discovered : ℕ
  pub probed : ℕ
  pub errors : ℕ
  pub active : List ActiveJob
  pub job_concurrency : ℕ
  pub preview_concurrency : ℕ
  pub cache_bytes : Option ℕ
  pub cache_limit : ℤ

abbrev pub poster_profile : Text
poster_profile = codes "poster-320-v1"

abbrev pub storyboard_profile : Text
storyboard_profile = codes "sb-240-5-v2"

abbrev pub is_missing : Availability → Bool
is_missing missing = true
is_missing _ = false

abbrev pub is_available : Availability → Bool
is_available available = true
is_available _ = false

abbrev pub is_ok : ProbeStatus → Bool
is_ok ok = true
is_ok _ = false

abbrev pub is_storyboard : Kind → Bool
is_storyboard storyboard = true
is_storyboard _ = false

abbrev pub eq_kind : Kind → Kind → Bool
eq_kind probe probe = true
eq_kind poster poster = true
eq_kind storyboard storyboard = true
eq_kind _ _ = false

abbrev pub is_queued : JobState → Bool
is_queued queued = true
is_queued _ = false

abbrev pub is_running : JobState → Bool
is_running running = true
is_running _ = false

abbrev pub emits : Signal → State → State
emits e s = record s { signals = e ∷ s.signals }

-- `SELECT ... FROM videos WHERE id=?`
abbrev pub find_video : ℕ → List Entry → Option Entry
find_video id [] = none
find_video id (v ∷ vs) = if v.id == id then some v else find_video id vs

-- `SELECT ... FROM videos WHERE root_id=? AND cmp_key=?`
abbrev pub find_row : ℕ → Text → List Entry → Option Entry
find_row root key [] = none
find_row root key (v ∷ vs) =
    if v.root_id == root && eq_text v.cmp_key key then some v else find_row root key vs

-- `UPDATE videos SET ... WHERE id=?`
abbrev pub update_video : ℕ → (Entry → Entry) → List Entry → List Entry
update_video id f [] = []
update_video id f (v ∷ vs) = (if v.id == id then f v else v) ∷ update_video id f vs

abbrev pub update_jobs : (Job → Bool) → (Job → Job) → List Job → List Job
update_jobs p f [] = []
update_jobs p f (j ∷ js) = (if p j then f j else j) ∷ update_jobs p f js

abbrev pub video_ids : List Entry → List ℕ
video_ids [] = []
video_ids (v ∷ vs) = v.id ∷ video_ids vs

abbrev pub is_job_of : ℕ → ℕ → Kind → Job → Bool
is_job_of video revision kind j =
    j.video_id == video && (j.revision == revision && eq_kind j.kind kind)

-- The row ids that SQLite gives to new rows, and the addresses of new objects.
pub record RowIds : Type 0 where
  pub address : List ActiveJob → ℕ
  pub video : List Entry → ℕ
  pub job : List Job → ℕ
  pub root : List Root → ℕ

-- `INSERT OR IGNORE INTO jobs(video_id, revision, kind, state) VALUES(?,?,?,'queued')`
abbrev pub queue_job : RowIds → ℕ → ℕ → Kind → List Job → List Job
queue_job ids video revision kind js =
    if any (is_job_of video revision kind) js
    then js
    else js
      ++ (record {
        id = ids.job js;
        video_id = video;
        revision = revision;
        kind = kind;
        state = queued;
        retries = 0;
        message = [];
      })
        ∷ []

abbrev pub or_minus_one : Option ℕ → ℤ
or_minus_one none = minus_one
or_minus_one (some n) = pos n

abbrev pub or_zero : Option ℕ → ℕ
or_zero none = 0
or_zero (some n) = n

abbrev pub or_empty : Option Text → Text
or_empty none = []
or_empty (some t) = t

abbrev pub availability_text : Availability → Text
availability_text unprobed = codes "unprobed"
availability_text available = codes "available"
availability_text missing = codes "missing"
availability_text unavailable = codes "unavailable"

abbrev pub status_text : ProbeStatus → Text
status_text pending = codes "pending"
status_text ok = codes "ok"
status_text error = codes "error"
status_text timeout = codes "timeout"

-- The projection of `rowSelectSql`, as `rowFromColumns` reads it.
pub row_of : List CacheEntry → Entry → VideoRow
row_of cache v = record {
  id = v.id;
  root_id = v.root_id;
  rel_path = v.rel_path;
  file_name = v.file_name;
  size_bytes = v.size_bytes;
  mtime_ms = v.mtime_ms;
  revision = v.revision;
  duration_ms = or_minus_one v.media.duration_ms;
  display_width = pos (or_zero v.media.display_width);
  display_height = pos (or_zero v.media.display_height);
  codec = or_empty v.media.codec;
  rating = or_zero v.notes.rating;
  views = v.notes.views;
  added_ms = v.notes.added_ms;
  availability = availability_text v.availability;
  probe_status = status_text v.probe_status;
  probe_error = v.probe_error;
  poster_ready = any (λ c. c.video_id == v.id && eq_kind c.kind poster) cache;
  atlas_ready =
      any
        (λ c.
          c.video_id == v.id && (c.revision == v.revision && eq_text c.profile storyboard_profile))
        cache;
}

-- A default row where the video is gone; its id is 0, and the model skips it.
pub read_row : ℕ → State → VideoRow
read_row id s = elim (find_video id s.videos) [ none ↦ default_row | some v ↦ row_of s.cache v ]

-- `emitRows({readRow(id)})`
pub emit_row : ℕ → State → State
emit_row id s = emits (rows_changed (read_row id s ∷ []) false) s

abbrev pub is_failed : JobState → Bool
is_failed failed = true
is_failed _ = false

abbrev pub is_waiting : JobState → Bool
is_waiting state = is_queued state || is_running state

-- `COUNT(DISTINCT video_id)`
abbrev pub count_videos : (Job → Bool) → List Job → List ℕ → ℕ
count_videos p [] seen = 0
count_videos p (j ∷ js) seen =
    let fresh = p j && not (elem j.video_id seen) in
    (if fresh then 1 else 0) + count_videos p js (if fresh then j.video_id ∷ seen else seen)

abbrev pub find_root : ℕ → List Root → Option Root
find_root id [] = none
find_root id (r ∷ rs) = if r.id == id then some r else find_root id rs

pub progress_of : Text → State → ScanProgress
progress_of state s = record {
  root_id = s.scanned_root;
  state = state;
  discovered = s.discovered;
  probed = s.probed;
  errors = s.errors;
  remaining = count_videos (λ j. not (is_storyboard j.kind) && is_waiting j.state) s.jobs [];
  processed = length (
      keep_if
        (λ c.
          eq_kind c.kind poster
          && any (λ v. v.id == c.video_id && (v.revision == c.revision && is_ok v.probe_status))
              s.videos)
        s.cache);
  previews_remaining = length (keep_if (λ j. is_storyboard j.kind && is_waiting j.state) s.jobs);
  failed = count_videos (λ j. not (is_storyboard j.kind) && not (is_waiting j.state)) s.jobs [];
  root_path = elim (find_root s.scanned_root s.roots) [ none ↦ [] | some r ↦ r.path ];
}

-- `emitProgress`
abbrev pub emit_progress : Text → State → State
emit_progress state s =
    emits (scan_progress (progress_of state s)) (record s { scan_state = state })

-- `emitProgressThrottled`, with whether a second has passed since the last progress. The last state
-- that was told is the scan's state, but for the first, which no call of this function names.
abbrev pub emit_progress_throttled : Bool → Text → State → State
emit_progress_throttled is_due state s =
    if eq_text state s.scan_state && not is_due then s else emit_progress state s

-- `killActiveJobs`: the jobs of one root, or all where it is 0. The signals to the workers'
-- processes are not part of the state.
abbrev pub kill_active_jobs : ℕ → State → State
kill_active_jobs root s = record s {
  active =
      map (λ j. if root == 0 || j.root_id == root then record j { cancelled = true } else j)
        s.active;
}
