-- ===== src/Catalogue/Roots.antt =====
-- src/catalogue/Catalogue.cpp: the roots of the catalogue (addRoot, removeRoot, refreshRows). The path
-- that the user gives, resolved by the platform, and the order of the rows are arguments.
pub mod Disjoint
pub mod History
pub mod Tests
use scrub_tub.Base.{
  ℕ, zero, suc, ◌+◌, Bool, true, false, ◌&&◌, ◌||◌, not, Option, none, some, List, [], ◌∷◌, ◌++◌,
  map, ◌==◌, if◌then◌else◌, any, keep_if, elem, Text, codes, eq_text, starts_with,
}
use scrub_tub.Row.{VideoRow}
use scrub_tub.Catalogue.{
  State, Entry, Root, RowIds, Signal, emits, emit_progress, kill_active_jobs, find_root, row_of,
  video_ids,
}
use scrub_tub.Catalogue.Cache.{purge_cache_for_videos}
use scrub_tub.Catalogue.Jobs.{dispatch_jobs}
use scrub_tub.Catalogue.Scan.{Enumeration, start_scan, run_enumeration}

-- `QFileInfo` of the path that the user gave.
pub record FileInfo : Type 0 where
  pub path : Text
  pub absolute : Text
  pub is_directory : Bool
  pub is_link : Bool

-- One lies below the other.
abbrev pub is_nested : Text → Text → Bool
is_nested existing absolute =
    starts_with existing (absolute ++ codes "/") || starts_with absolute (existing ++ codes "/")

-- The message of the first root that stands in the way.
pub conflict : Text → List Root → Option Text
conflict absolute [] = none
conflict absolute (r ∷ rs) =
    if eq_text r.cmp_key absolute
    then some (codes "Folder is already in the catalogue")
    else (if is_nested r.cmp_key absolute
        then some (codes "Folder overlaps an existing root: " ++ r.cmp_key)
        else conflict absolute rs)

abbrev pub new_root : RowIds → Text → Bool → List Root → Root
new_root ids absolute include_hidden rs = record {
  id = ids.root rs;
  path = absolute;
  cmp_key = absolute;
  is_missing = false;
  include_hidden = include_hidden;
  scan_generation = 0;
  last_complete_scan_ms = none;
}

-- The INSERT, whose failure has a message, and the first scan.
pub insert_root : RowIds → Text → Bool → Option Text → Enumeration → State → State
insert_root ids absolute include_hidden (some message) e s =
    emits (Signal.operation_failed message) s
insert_root ids absolute include_hidden none e s =
    let r = new_root ids absolute include_hidden s.roots in
    run_enumeration ids r.id false e (
      start_scan r.id false
        (emits (Signal.root_added r.id) (record s { roots = s.roots ++ r ∷ [] })))

-- `addRoot`
pub add_root : RowIds → FileInfo → Bool → Option Text → Enumeration → State → State
add_root ids f include_hidden failure e s =
    if not f.is_directory
    then emits (Signal.root_rejected (codes "Not a directory: " ++ f.path)) s
    else (if f.is_link
        then emits
            (Signal.root_rejected
              (f.absolute ++ codes " is a symlink; add the real directory instead"))
            s
        else (elim (conflict f.absolute s.roots) [
          | some message ↦ emits (Signal.root_rejected message) s
          | none ↦ insert_root ids f.absolute include_hidden failure e s
        ]))

-- `refreshRows`
abbrev pub refresh_rows : (List VideoRow → List VideoRow) → State → State
refresh_rows order s = emits (Signal.rows_changed (order (map (row_of s.cache) s.videos)) true) s

-- `DELETE FROM roots WHERE id=?`, with the rows that the foreign keys delete.
pub delete_root : ℕ → State → State
delete_root root s =
    let gone = video_ids (keep_if (λ v. v.root_id == root) s.videos) in
    record s {
      roots = keep_if (λ r. not (r.id == root)) s.roots;
      videos = keep_if (λ v. not (v.root_id == root)) s.videos;
      jobs = keep_if (λ j. not (elem j.video_id gone)) s.jobs;
      cache = keep_if (λ c. not (elem c.video_id gone)) s.cache;
    }

abbrev pub forget_scan : ℕ → State → State
forget_scan root s = if s.scanned_root == root then record s { scanned_root = 0 } else s

-- The DELETE, which may fail with a message, and what follows it. The snapshots of the search are
-- another component's.
pub remove_found : RowIds → (List VideoRow → List VideoRow) → Bool → ℕ → Option Text → State → State
remove_found ids order is_due root (some message) s = emits (Signal.operation_failed message) s
remove_found ids order is_due root none s =
    let left = forget_scan root (kill_active_jobs root (delete_root root s)) in
    let told = refresh_rows order (emits (Signal.root_removed root) left) in
    dispatch_jobs ids is_due (emit_progress told.scan_state told)

-- `removeRoot`
pub remove_root : RowIds → (List VideoRow → List VideoRow) → Bool → ℕ → Option Text → State → State
remove_root ids order is_due root failure s = elim (find_root root s.roots) [
  | none ↦ emits (Signal.operation_failed (codes "Unknown root")) s
  | some r ↦
      remove_found ids order is_due root failure
        (purge_cache_for_videos (video_ids (keep_if (λ v. v.root_id == root) s.videos)) s)
]
