-- ===== src/Catalogue/Session.antt =====
-- src/catalogue/Catalogue.cpp and src/catalogue/CatalogueM4.cpp: what the interface asks of the
-- catalogue for single videos (setRating, incrementViews, hoverEngage, trashVideos), and the start of
-- a session (loadExistingState, rescanAllRoots, clearPreviews).
pub mod Trash
pub mod Tests
use scrub_tub.Base.{
  ℕ, ◌+◌, Bool, true, false, ◌&&◌, ◌||◌, not, Option, none, some, List, [], ◌∷◌, ◌++◌, ◌==◌, ltb,
  if◌then◌else◌, any, keep_if, length, ℤ, pos, negsuc, minus_one, eq_ℤ, leb_ℤ, Text, codes,
}
use scrub_tub.Row.{VideoRow}
use scrub_tub.Catalogue.{
  State, Entry, Root, CacheEntry, Job, Kind, Availability, RowIds, Signal, emits, emit_row,
  emit_progress, find_video, find_root, update_video, queue_job, is_ok, is_available, is_queued,
  eq_kind, or_minus_one,
}
use scrub_tub.Catalogue.Cache.{empty_cache}
use scrub_tub.Catalogue.Roots.{refresh_rows}
use scrub_tub.Catalogue.Scan.{Enumeration, start_scan, run_enumeration}

-- `setRating`; 0 is NULL.
pub set_rating : ℕ → ℤ → State → State
set_rating video (negsuc n) s = s
set_rating video (pos n) s =
    if ltb 5 n
    then s
    else emit_row video (
        emits (Signal.rating_committed video n) (record s {
          videos =
              update_video video
                (λ v. record v {
                  notes = record v.notes { rating = if n == 0 then none else some n };
                })
                s.videos;
        }))

-- `incrementViews`
pub increment_views : ℕ → ℕ → State → State
increment_views now video s = emit_row video (record s {
  videos =
      update_video video
        (λ v. record v {
          notes = record v.notes { views = v.notes.views + 1; last_opened_ms = some now };
        })
        s.videos;
})

-- A video with its root, as the JOIN gives them.
abbrev pub find_placed : ℕ → State → Option (Entry × Root)
find_placed video s = elim (find_video video s.videos) [
  | none ↦ none
  | some v ↦ elim (find_root v.root_id s.roots) [ none ↦ none | some r ↦ some (v, r) ]
]

abbrev pub absolute_path_of : Entry → Root → Text
absolute_path_of v r = r.path ++ (codes "/" ++ v.rel_path)

-- `hoverEngage`
pub hover_engage : ℕ → State → State
hover_engage video s = elim (find_placed video s) [
  | none ↦ emits (Signal.hover_source_ready video 0 [] minus_one) s
  | some (v, r) ↦
      emits
        (Signal.hover_source_ready video v.revision
          (if is_available v.availability then absolute_path_of v r else [])
          (or_minus_one v.media.duration_ms))
        s
]

-- What the platform says of the file at its turn, and whether the trash takes it.
pub record Trashing : Type 0 where
  pub is_file : Bool
  pub is_link : Bool
  pub size_bytes : ℕ
  pub mtime_ms : ℤ
  pub is_trashed : Bool

-- The reason against the removal, in the order of the checks.
pub trash_failure : Entry → Root → Trashing → Option Text
trash_failure v r t =
    if not t.is_file || t.is_link
    then some (codes "File is not a regular file: " ++ absolute_path_of v r)
    else (if leb_ℤ (pos 0) v.size_bytes
          && not (eq_ℤ (pos t.size_bytes) v.size_bytes && eq_ℤ t.mtime_ms v.mtime_ms)
        then some (codes "File changed since confirmation; refresh and confirm again")
        else (if t.is_trashed
            then none
            else some (codes "Could not move to Trash: " ++ absolute_path_of v r)))

-- The row of a trashed file, and its queued jobs.
pub forget_file : ℕ → State → State
forget_file video s =
    let gone = record s {
      videos = update_video video (λ v. record v { availability = Availability.missing }) s.videos;
      jobs = keep_if (λ j. not (j.video_id == video && is_queued j.state)) s.jobs;
    } in
    emits (Signal.trash_result video true [])
      (emit_row video (emits (Signal.search_record_refreshed video) gone))

pub trash_video : ℕ → Trashing → State → State
trash_video video t s = elim (find_placed video s) [
  | none ↦ emits (Signal.trash_result video false (codes "Unknown video")) s
  | some (v, r) ↦ elim (trash_failure v r t) [
    | some reason ↦ emits (Signal.trash_result video false reason) s
    | none ↦ forget_file video s
  ]
]

-- `trashVideos`
pub trash_videos : List (ℕ × Trashing) → State → State
trash_videos [] s = s
trash_videos ((video, t) ∷ rest) s = trash_videos rest (trash_video video t s)

-- A poster for every probed video without one.
pub repair_posters : RowIds → List CacheEntry → List Entry → List Job → List Job
repair_posters ids cache [] js = js
repair_posters ids cache (v ∷ vs) js = repair_posters ids cache vs (
    if is_ok v.probe_status
      && (is_available v.availability
          && not (
              any
                (λ c.
                  c.video_id == v.id && (c.revision == v.revision && eq_kind c.kind Kind.poster))
                cache))
    then queue_job ids v.id v.revision Kind.poster js
    else js)

pub announce_roots : List Root → State → State
announce_roots [] s = s
announce_roots (r ∷ rs) s = announce_roots rs (emits (Signal.root_added r.id) s)

-- `loadExistingState`
pub load_existing_state : RowIds → (List VideoRow → List VideoRow) → State → State
load_existing_state ids order s =
    let told = announce_roots s.roots s in
    let jobs = repair_posters ids s.cache s.videos s.jobs in
    let repaired = record told {
      jobs = jobs;
      sparse_pass_queued = s.sparse_pass_queued && not (ltb (length s.jobs) (length jobs));
    } in
    let shown = refresh_rows order repaired in
    record (emit_progress shown.scan_state shown) { dispatch_timer = true }

-- `clearPreviews`
pub clear_previews : RowIds → (List VideoRow → List VideoRow) → State → State
clear_previews ids order s =
    emits (Signal.cache_usage_ready 0) (load_existing_state ids order (empty_cache s))

-- `rescanAllRoots`: each scan begins when the one before has returned.
pub rescan_all_roots : RowIds → Bool → List (ℕ × Enumeration) → State → State
rescan_all_roots ids force [] s = s
rescan_all_roots ids force ((root, e) ∷ rest) s =
    rescan_all_roots ids force rest (run_enumeration ids root force e (start_scan root force s))
