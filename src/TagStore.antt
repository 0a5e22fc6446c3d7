-- ===== src/TagStore.antt =====
-- src/catalogue/CatalogueM3.cpp: the tags of the videos in the database. A write transaction is one
-- function of the tables; the ids of new tags come from SQLite and are passed in.
pub mod Visibility
pub mod Regeneration
mod Tests
use scrub_tub.Base.{
  ℕ, ◌+◌, Bool, true, false, ◌&&◌, ◌||◌, not, Option, none, some, List, [], ◌∷◌, ◌++◌, ◌==◌,
  if◌then◌else◌, any, keep_if, Text, eq_text, is_empty, ℤ,
}
use scrub_tub.Tags.{Unicode, normalize, filename_tags, folder_tags, technical_tags}
use scrub_tub.Query.{
  Tables, TagRow, Assignment, Origin, manual, filename, folder, technical, is_manual,
}

abbrev pub eq_origin : Origin → Origin → Bool
eq_origin manual manual = true
eq_origin filename filename = true
eq_origin folder folder = true
eq_origin technical technical = true
eq_origin _ _ = false

-- `SELECT id FROM tags WHERE norm=?`
pub find_tag : Text → List TagRow → Option ℕ
find_tag norm [] = none
find_tag norm (t ∷ ts) = if eq_text t.norm norm then some t.tag_id else find_tag norm ts

-- The id of the tag, and the tables with it. `fresh` is the row id that SQLite gives to an insertion
-- into the tags.
pub ensure_tag : (List TagRow → ℕ) → Text → Tables → ℕ × Tables
ensure_tag fresh norm db = elim (find_tag norm db.tags) [
  | some id ↦ (id, db)
  | none ↦ (
    fresh db.tags,
    record db { tags = db.tags ++ (record { tag_id = fresh db.tags; norm = norm }) ∷ [] },
  )
]

abbrev pub eq_assignment : Assignment → Assignment → Bool
eq_assignment a b = a.video == b.video && (a.tag == b.tag && eq_origin a.origin b.origin)

-- `INSERT OR IGNORE INTO video_tags`
pub assign : Assignment → Tables → Tables
assign a db =
    if any (eq_assignment a) db.assignments
    then db
    else record db { assignments = db.assignments ++ a ∷ [] }

abbrev pub is_pair : ℕ → ℕ → ℕ × ℕ → Bool
is_pair video tag (v, t) = v == video && t == tag

-- The transaction of `addManualTag`; a text that normalizes to nothing changes nothing.
pub add_manual_tag : Unicode → (List TagRow → ℕ) → ℕ → Text → Tables → Tables
add_manual_tag u fresh video text db =
    let norm = normalize u text in
    let (tag, found) = ensure_tag fresh norm db in
    if is_empty norm
    then db
    else assign (record { video = video; tag = tag; origin = manual })
        (record found {
          suppressions = keep_if (λ s. not (is_pair video tag s)) found.suppressions;
        })

pub remove_tag : ℕ → ℕ → Tables → Tables
remove_tag video tag db = record db {
  assignments =
      keep_if (λ a. not (a.video == video && (a.tag == tag && is_manual a.origin))) db.assignments;
}

-- `INSERT OR IGNORE INTO tag_suppressions`
pub suppress_auto_tag : ℕ → ℕ → Tables → Tables
suppress_auto_tag video tag db =
    if any (is_pair video tag) db.suppressions
    then db
    else record db { suppressions = db.suppressions ++ (video, tag) ∷ [] }

pub reset_suppressions : Tables → Tables
reset_suppressions db = record db { suppressions = [] }

-- `insert` of `applyAutoTags`
pub insert_tags : (List TagRow → ℕ) → ℕ → Origin → List Text → Tables → Tables
insert_tags fresh video origin [] db = db
insert_tags fresh video origin (t ∷ ts) db =
    let (tag, found) = ensure_tag fresh t db in
    insert_tags fresh video origin ts
      (assign (record { video = video; tag = tag; origin = origin }) found)

-- What the file gives tags from: the base name of the file, the base names of the folders under the
-- root, the codec and the displayed size.
pub record TagSource : Type 0 where
  pub stem : Text
  pub folders : List Text
  pub codec : Text
  pub width : ℤ
  pub height : ℤ

-- The automatic assignments of the video are deleted, and those of its source inserted.
pub clear_auto_tags : ℕ → Tables → Tables
clear_auto_tags video db = record db {
  assignments = keep_if (λ a. not (a.video == video && not (is_manual a.origin))) db.assignments;
}

pub apply_auto_tags : Unicode → (List TagRow → ℕ) → ℕ → TagSource → Tables → Tables
apply_auto_tags u fresh video source db =
    insert_tags fresh video technical (technical_tags u source.codec source.width source.height) (
      insert_tags fresh video folder (folder_tags u source.folders)
        (insert_tags fresh video filename (filename_tags u source.stem) (clear_auto_tags video db)))
