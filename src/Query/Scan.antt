-- ===== src/Query/Scan.antt =====
-- The search itself: validation, the ordered scan, matching and the order of the hits.
pub mod Admitted
pub mod Results
mod Tests
use scrub_tub.Base.{
  ℕ, ◌+◌, Bool, true, false, ◌&&◌, ◌||◌, not, Option, none, some, List, [], ◌∷◌, ◌++◌, map, ltb,
  leb, ◌==◌, if◌then◌else◌, length, any, keep_if, ℤ, pos, minus_one, ltb_ℤ, leb_ℤ, Text, codes,
  eq_text, is_empty,
}
use scrub_tub.Tags.{Unicode}
use scrub_tub.Search.{
  SearchRecord, MatchResult, fill_record, fold_query, match_tokens, no_match, Candidate,
  more_relevant,
}
use scrub_tub.Query.{
  QuerySpec, Video, Tables, TagRow, Assignment, shorter_side, where_for_filters, tag_conditions,
  holds, is_visible,
}

-- The value of the column that is sorted by.
pub data SortValue : Type 0 where
  null : SortValue
  number : ℤ → SortValue
  text : Text → SortValue

abbrev pub of_option : Option ℤ → SortValue
of_option none = null
of_option (some x) = number x

abbrev pub columns : List (Text × (Video → SortValue))
columns =
    (codes "name", λ v. text v.file_name)
    ∷ (codes "size", λ v. of_option v.size_bytes)
    ∷ (codes "duration", λ v. of_option v.duration_ms)
    ∷ (codes "resolution", λ v. of_option (shorter_side v))
    ∷ (codes "rating", λ v. of_option v.rating)
    ∷ (codes "views", λ v. number v.views)
    ∷ (codes "added", λ v. number v.added_ms)
    ∷ (codes "mtime", λ v. of_option v.mtime_ms)
    ∷ (codes "lastOpened", λ v. of_option v.last_opened_ms)
    ∷ []

-- The first column of that key.
pub find_column : Text → List (Text × (Video → SortValue)) → Option (Video → SortValue)
find_column key [] = none
find_column key ((k, f) ∷ cs) = if eq_text key k then some f else find_column key cs

abbrev pub is_null_value : SortValue → Bool
is_null_value null = true
is_null_value _ = false

module _ (compare : Text → Text → ℤ) where
  -- `x < y` for values of one column
  abbrev pub value_less : SortValue → SortValue → Bool
  value_less (number a) (number b) = ltb_ℤ a b
  value_less (text a) (text b) = ltb_ℤ (compare a b) (pos 0)
  value_less _ _ = false

  -- `(x IS NULL) ASC, x ASC|DESC, videos.id ASC`
  pub value_before : Bool → SortValue → SortValue → ℕ → ℕ → Bool
  value_before descending x y i j =
      if is_null_value x && is_null_value y
      then ltb i j
      else (if is_null_value x || is_null_value y
          then is_null_value y
          else (if value_less x y
              then not descending
              else (if value_less y x then descending else ltb i j)))

  pub row_before : QuerySpec → Video → Video → Bool
  row_before q a b = elim (find_column q.sort_key columns) [
    | none ↦ ltb a.id b.id
    | some f ↦ value_before q.sort_descending (f a) (f b) a.id b.id
  ]

-- `ORDER BY` and `std::sort`
pub insert_by {ℓ} : {A : Type ℓ} → (A → A → Bool) → A → List A → List A
insert_by lt x [] = x ∷ []
insert_by lt x (y ∷ ys) = let rest = insert_by lt x ys in if lt x y then x ∷ y ∷ ys else y ∷ rest

pub sort_by {ℓ} : {A : Type ℓ} → (A → A → Bool) → List A → List A
sort_by lt [] = []
sort_by lt (x ∷ xs) = insert_by lt x (sort_by lt xs)

abbrev pub is_out_of_scale : ℤ → Bool
is_out_of_scale r = ltb_ℤ r minus_one || ltb_ℤ (pos 5) r

-- The text of the last validation that fails, or the empty one.
pub validation_error : QuerySpec → List Text → Text
validation_error q tokens =
    if ltb 16 (length tokens)
    then codes "Query exceeds 16 tokens"
    else (if ltb 256 (length q.text)
        then codes "Query exceeds 256 characters"
        else (if (is_out_of_scale q.rating_min || is_out_of_scale q.rating_max)
              || (leb_ℤ (pos 0) q.rating_min
                  && (leb_ℤ (pos 0) q.rating_max && ltb_ℤ q.rating_max q.rating_min))
            then codes "Rating range must be between 0 and 5, minimum first"
            else []))

-- Qt and rapidfuzz as the search uses them, with the order of SQLite's texts.
pub record Platform : Type 0 where
  pub unicode : Unicode
  pub levenshtein : List ℕ → List ℕ → ℕ
  pub to_u32 : Text → List ℕ
  pub to_int : Text → Option ℕ
  pub split_query : Text → List Text
  pub compare : Text → Text → ℤ
  pub collate : Text → Text → ℤ

pub norms_of : List TagRow → ℕ → List Text
norms_of [] tag = []
norms_of (t ∷ ts) tag = if t.tag_id == tag then t.norm ∷ norms_of ts tag else norms_of ts tag

-- The names of the visible tags of a video, in the order of their assignment.
pub tag_norms : Tables → ℕ → List Assignment → List Text
tag_norms db video [] = []
tag_norms db video (a ∷ as') =
    (if a.video == video && is_visible db a then norms_of db.tags a.tag else [])
    ++ tag_norms db video as'

module _ (p : Platform) (db : Tables) where
  pub record_of : (ℕ → Option SearchRecord) → Video → SearchRecord
  record_of records v = elim (records v.id) [
    | none ↦ fill_record p.unicode v.id v.file_name v.rel_path (tag_norms db v.id db.assignments)
    | some r ↦ r
  ]

  pub candidates : (ℕ → Option SearchRecord) → List Text → List Video → List Candidate
  candidates records folded [] = []
  candidates records folded (v ∷ vs) =
      let rest = candidates records folded vs in
      let r = record_of records v in
      let m = match_tokens p.levenshtein p.to_u32 r folded in
      if m.matched then (record { id = v.id; found = m; norm_name = r.norm_name }) ∷ rest else rest

  abbrev pub has_text : List Text → Bool
  has_text [] = false
  has_text (t ∷ ts) = true

  -- The rows that `SELECT id FROM videos WHERE ... ORDER BY ...` gives.
  pub selected : QuerySpec → List Video
  selected q =
      sort_by (row_before p.collate q)
        (keep_if (holds (where_for_filters p.to_int p.to_u32 q ++ tag_conditions db q)) db.videos)

  -- The ids of `searchCompleted`, and its validation error.
  pub search : (ℕ → Option SearchRecord) → QuerySpec → List ℕ × Text
  search records q =
      let tokens = p.split_query q.text in
      let error = validation_error q tokens in
      let hits = candidates records (fold_query p.unicode tokens) (selected q) in
      if is_empty error
      then (
        map Candidate.id (
            if has_text tokens && not q.user_sort
            then sort_by (more_relevant p.compare) hits
            else hits),
        [],
      )
      else ([], error)
