-- ===== src/Catalogue/Scan.antt =====
-- src/catalogue/Catalogue.cpp: the scan of a root (startScan, runEnumerationLocked). The scanner's
-- batches, with the clock's answers, are an argument; so is whether it completed.
pub mod Files
pub mod Complete
pub mod Sound
pub mod Retained
pub mod Roots
pub mod Tests
pub mod Reconcile
use scrub_tub.Base.{
  ℕ, ◌+◌, Bool, true, false, ◌&&◌, ◌||◌, not, Option, none, some, List, [], ◌∷◌, ◌++◌, map, ◌==◌,
  ltb, leb, if◌then◌else◌, any, keep_if, length, drop, is_some, ℤ, pos, eq_ℤ, Text, codes,
}
use scrub_tub.Row.{VideoRow, default_row}
use scrub_tub.Catalogue.{
  State, Entry, Root, Media, Availability, ProbeStatus, Kind, JobState, CacheEntry, Signal, RowIds,
  emits, find_row, update_video, update_jobs, queue_job, is_missing, is_ok, eq_kind, is_queued,
  is_failed, find_root, emit_progress, kill_active_jobs, read_row,
}

-- `DiscoveredFile`, with the clock at its turn.
pub record File : Type 0 where
  pub absolute_path : Text
  pub size_bytes : ℕ
  pub mtime_ms : ℤ
  pub now : ℕ

-- A batch of the sink: whether the user cancelled before it, and how long after the last commit its
-- end came.
pub record Batch : Type 0 where
  pub files : List File
  pub cancelled : Bool
  pub elapsed : ℕ

-- What one scan knows of its root.
pub record Context : Type 0 where
  pub ids : RowIds
  pub root_id : ℕ
  pub root_path : Text
  pub generation : ℕ
  pub force : Bool

-- The catalogue with the local variables of the scan.
pub record Pass : Type 0 where
  pub state : State
  pub rows_since_commit : ℕ
  pub pending : List VideoRow

-- `absolutePath.mid(rootPath.size() + 1)`
abbrev pub key_of : Context → File → Text
key_of c f = drop (length c.root_path + 1) f.absolute_path

-- The part behind the last slash.
pub segment : Text → Text → Text
segment best [] = best
segment best (u ∷ us) = segment (if u == 47 then us else best) us

pub file_name_of : Text → Text
file_name_of path = segment path path

-- What the scan makes of a file that has a row.
pub data Verdict : Type 0 where
  seen revived revived_probed changed : Verdict

abbrev pub is_unchanged : Entry → File → Bool
is_unchanged v f = eq_ℤ v.size_bytes (pos f.size_bytes) && eq_ℤ v.mtime_ms f.mtime_ms

-- The `if`s that end in `continue`, in their order.
pub verdict : Bool → Entry → File → Verdict
verdict force v f =
    if is_unchanged v f && (not force && not (is_missing v.availability))
    then seen
    else (if is_unchanged v f && (not force && is_missing v.availability)
        then revived
        else (if is_unchanged v f && (force && (is_ok v.probe_status && is_missing v.availability))
            then revived_probed
            else changed))

abbrev pub no_media : Option ℕ → Media
no_media stream = record {
  duration_ms = none;
  coded_width = none;
  coded_height = none;
  display_width = none;
  display_height = none;
  rotation_deg = none;
  codec = none;
  stream_index = stream;
}

-- The `UPDATE videos` of each verdict.
pub judged : Verdict → ℕ → File → Entry → Entry
judged seen g f v = record v { seen_generation = some g }
judged revived g f v = record v {
  seen_generation = some g;
  availability = if is_ok v.probe_status then Availability.available else Availability.unprobed;
}
judged revived_probed g f v = record v {
  seen_generation = some g;
  availability = Availability.available;
}
judged changed g f v = record v {
  size_bytes = pos f.size_bytes;
  mtime_ms = f.mtime_ms;
  revision = v.revision + 1;
  media = no_media v.media.stream_index;
  availability = Availability.unprobed;
  probe_status = ProbeStatus.pending;
  probe_error = [];
  seen_generation = some g;
}

-- `requeueProbe`
pub requeue_probe : Entry → State → State
requeue_probe v s = record s {
  jobs =
      update_jobs
        (λ j. j.video_id == v.id && (eq_kind j.kind Kind.probe && j.revision == v.revision))
        (λ j. record j { state = JobState.queued; retries = 0; message = [] }) s.jobs;
}

-- `ensureProbeJob`
pub ensure_probe_job : RowIds → ℕ → ℕ → State → State
ensure_probe_job ids video revision s = record s {
  jobs = queue_job ids video revision Kind.probe s.jobs;
}

-- `dropJobs`, `listArtifacts` and `dropCache`
pub drop_extracted : ℕ → State → State
drop_extracted video s = record s {
  jobs = keep_if (λ j. not (j.video_id == video)) s.jobs;
  removed_files =
      s.removed_files ++ map CacheEntry.rel_path (keep_if (λ c. c.video_id == video) s.cache);
  cache = keep_if (λ c. not (c.video_id == video)) s.cache;
}

pub mark : Verdict → ℕ → File → Entry → State → State
mark w g f v s = record s { videos = update_video v.id (judged w g f) s.videos }

-- A file whose row is `v`.
pub scan_known : Context → File → Entry → Verdict → Pass → Pass
scan_known c f v seen p = record p {
  state =
      (let s = mark seen c.generation f v p.state in
        if is_ok v.probe_status
        then s
        else requeue_probe v (ensure_probe_job c.ids v.id v.revision s));
}
scan_known c f v changed p =
    let s =
      ensure_probe_job c.ids v.id (v.revision + 1)
        (drop_extracted v.id (mark changed c.generation f v p.state)) in
    record p {
      state = s;
      rows_since_commit = p.rows_since_commit + 1;
      pending = p.pending ++ read_row v.id s ∷ [];
    }
scan_known c f v w p = record p { state = mark w c.generation f v p.state }

-- The row of a new file, and the row that is shown for it.
pub new_entry : Context → File → ℕ → Entry
new_entry c f id = record {
  id = id;
  root_id = c.root_id;
  rel_path = key_of c f;
  cmp_key = key_of c f;
  file_name = file_name_of f.absolute_path;
  size_bytes = pos f.size_bytes;
  mtime_ms = f.mtime_ms;
  revision = 1;
  media = no_media none;
  notes = record { rating = none; views = 0; added_ms = f.now; last_opened_ms = none };
  availability = Availability.unprobed;
  probe_status = ProbeStatus.pending;
  probe_error = [];
  seen_generation = some c.generation;
}

pub fresh_row : Context → File → ℕ → VideoRow
fresh_row c f id = record default_row {
  id = id;
  root_id = c.root_id;
  rel_path = key_of c f;
  file_name = file_name_of f.absolute_path;
  size_bytes = pos f.size_bytes;
  mtime_ms = f.mtime_ms;
  revision = 1;
  added_ms = f.now;
  availability = codes "unprobed";
  probe_status = codes "pending";
}

-- `insertVideo` and `insertProbeJob`; the key is new, so that the INSERT takes place.
pub insert_video : Context → File → ℕ → State → State
insert_video c f id s =
    ensure_probe_job c.ids id 1 (record s { videos = s.videos ++ new_entry c f id ∷ [] })

pub scan_new : Context → File → Pass → Pass
scan_new c f p =
    let id = c.ids.video p.state.videos in
    record p {
      state = insert_video c f id p.state;
      rows_since_commit = p.rows_since_commit + 1;
      pending = p.pending ++ fresh_row c f id ∷ [];
    }

-- The body of the loop over a batch.
pub scan_file : Context → File → Pass → Pass
scan_file c f p = elim (find_row c.root_id (key_of c f) p.state.videos) [
  | none ↦ scan_new c f p
  | some v ↦ scan_known c f v (verdict c.force v f) p
]

pub scan_files : Context → List File → Pass → Pass
scan_files c [] p = p
scan_files c (f ∷ fs) p = scan_files c fs (scan_file c f p)

pub flush_rows : Pass → Pass
flush_rows p = elim p.pending [
  | [] ↦ p
  | r ∷ rs ↦ record p { state = emits (Signal.rows_changed (r ∷ rs) false) p.state; pending = [] }
]

pub commit_if_due : ℕ → Pass → Pass
commit_if_due elapsed p =
    if leb 250 p.rows_since_commit || leb 100 elapsed
    then flush_rows
        (record p { state = record p.state { in_transaction = false }; rows_since_commit = 0 })
    else p

-- `BEGIN IMMEDIATE` fails inside a transaction, and the batch is left then.
pub scan_batch : Context → Batch → Pass → Pass
scan_batch c b p =
    let counted = record p.state { discovered = p.state.discovered + length b.files } in
    if p.state.cancel_requested
    then p
    else (if p.state.in_transaction
        then record p { state = counted }
        else commit_if_due b.elapsed
            (scan_files c b.files (record p { state = record counted { in_transaction = true } })))

-- The user may cancel before a batch.
abbrev pub ask : Batch → Pass → Pass
ask b p = if b.cancelled then record p { state = record p.state { cancel_requested = true } } else p

-- The batches of the scanner.
pub scan_batches : Context → List Batch → Pass → Pass
scan_batches c [] p = p
scan_batches c (b ∷ bs) p = scan_batches c bs (scan_batch c b (ask b p))

-- `seen_generation IS NULL OR seen_generation < ?`
abbrev pub is_older : ℕ → Option ℕ → Bool
is_older g none = true
is_older g (some n) = ltb n g

-- The transaction behind a complete enumeration.
pub mark_missing : ℕ → ℕ → Entry → Entry
mark_missing root g v =
    if v.root_id == root && (is_older g v.seen_generation && not (is_missing v.availability))
    then record v { availability = Availability.missing }
    else v

abbrev pub mark_all : (Entry → Entry) → List Entry → List Entry
mark_all f [] = []
mark_all f (v ∷ vs) = f v ∷ mark_all f vs

pub finish_enumeration : ℕ → ℕ → ℕ → State → State
finish_enumeration root g now s =
    let videos = mark_all (mark_missing root g) s.videos in
    record s {
      videos = videos;
      jobs =
          keep_if
            (λ j. not (
              is_queued j.state
              && any (λ v. v.id == j.video_id && (v.root_id == root && is_missing v.availability))
                  videos))
            s.jobs;
      roots =
          map (λ r. if r.id == root then record r { last_complete_scan_ms = some now } else r)
            s.roots;
    }

-- `startScan` up to the enumeration.
pub start_scan : ℕ → Bool → State → State
start_scan root force s = record s {
  scan_active = true;
  cancel_requested = false;
  pause_requested = false;
  scanned_root = root;
  scan_force = force;
  sparse_pass_queued = false;
  discovered = 0;
  probed = 0;
  errors = 0;
  jobs =
      if force
      then update_jobs
          (λ j.
            eq_kind j.kind Kind.probe
            && (is_failed j.state && any (λ v. v.id == j.video_id && v.root_id == root) s.videos))
          (λ j. record j { state = JobState.queued; retries = 0; message = [] }) s.jobs
      else s.jobs;
  roots =
      map
        (λ r.
          if r.id == root
          then record r { scan_generation = r.scan_generation + 1; is_missing = false }
          else r)
        s.roots;
}

-- What the scanner does: its batches, whether it completed, its issues, and the time at the end.
pub record Enumeration : Type 0 where
  pub batches : List Batch
  pub is_completed : Bool
  pub issues : ℕ
  pub now : ℕ

-- The rest of `runEnumerationLocked`, behind the batches.
pub end_enumeration : ℕ → ℕ → Enumeration → Pass → State
end_enumeration root g e p =
    let s = (flush_rows (record p { state = record p.state { in_transaction = false } })).state in
    if not e.is_completed
    then emit_progress (codes "cancelled") (record (kill_active_jobs 0 s) { scan_active = false })
    else (let done = finish_enumeration root g e.now (record s { errors = s.errors + e.issues }) in
        record (emit_progress (codes "probing") done) { dispatch_timer = true })

pub context_of : RowIds → Bool → Root → Context
context_of ids force r = record {
  ids = ids;
  root_id = r.id;
  root_path = r.path;
  generation = r.scan_generation;
  force = force;
}

-- `runEnumerationLocked`
pub run_enumeration : RowIds → ℕ → Bool → Enumeration → State → State
run_enumeration ids root force e s0 =
    let s = emit_progress (codes "enumerating") s0 in
    elim (find_root root s.roots) [
      | none ↦ record s { scan_active = false }
      | some r ↦ end_enumeration root r.scan_generation e (
          scan_batches (context_of ids force r) e.batches
            (record { state = s; rows_since_commit = 0; pending = [] }))
    ]

-- `rescanRoot`, with whether the root's path is a directory and no link.
pub rescan_root : RowIds → ℕ → Bool → Bool → Enumeration → State → State
rescan_root ids root force is_directory e s =
    if s.scan_active
    then emits (Signal.operation_failed (codes "A scan is already running")) s
    else (elim (find_root root s.roots) [
      | none ↦ emits (Signal.operation_failed (codes "Unknown root")) s
      | some r ↦
          if is_directory
          then run_enumeration ids root force e (start_scan root force s)
          else emit_progress (codes "missing") (record s {
            roots = map (λ q. if q.id == root then record q { is_missing = true } else q) s.roots;
            scanned_root = root;
          })
    ])
