-- ===== src/Query.antt =====
-- src/catalogue/CatalogueM3.cpp: structured filters and the search. The SQL that the source builds is
-- evaluated over the rows of the tables, where a test of an unknown value does not hold.
pub mod Scan
pub mod Filters
pub mod Presets
pub mod Tests
use scrub_tub.Base.{
  ℕ, ◌+◌, ◌/◌, Bool, true, false, ◌&&◌, ◌||◌, not, Option, none, some, List, [], ◌∷◌, ◌++◌, map,
  ltb, leb, ◌==◌, if◌then◌else◌, length, take, any, all, keep_if, ℤ, pos, minus_one, ltb_ℤ, leb_ℤ,
  eq_ℤ, Text, codes, eq_text, elem_text, is_empty,
}
use scrub_tub.Tags.{Unicode}
use scrub_tub.Search.{
  SearchRecord, fill_record, fold_query, match_tokens, no_match, Candidate, more_relevant,
}

pub record QuerySpec : Type 0 where
  pub text : Text
  pub size_min : ℤ
  pub size_max : ℤ
  pub width_min : ℤ
  pub width_max : ℤ
  pub height_min : ℤ
  pub height_max : ℤ
  pub resolution_preset : Text
  pub duration_min_ms : ℤ
  pub duration_max_ms : ℤ
  pub rating_mode : ℤ
  pub rating_value : ℤ
  pub rating_min : ℤ
  pub rating_max : ℤ
  pub include_all_tags : List Text
  pub include_any_tags : List Text
  pub exclude_tags : List Text
  pub root_id : ℤ
  pub folder_prefix : Text
  pub views_min : ℤ
  pub availability : List Text
  pub sort_key : Text
  pub sort_descending : Bool
  pub user_sort : Bool

-- A row of `videos`; NULL is `none`.
pub record Video : Type 0 where
  pub id : ℕ
  pub root_id : ℤ
  pub rel_path : Text
  pub file_name : Text
  pub size_bytes : Option ℤ
  pub display_width : Option ℤ
  pub display_height : Option ℤ
  pub duration_ms : Option ℤ
  pub rating : Option ℤ
  pub views : ℤ
  pub availability : Text
  pub added_ms : ℤ
  pub mtime_ms : Option ℤ
  pub last_opened_ms : Option ℤ

pub record TagRow : Type 0 where
  pub tag_id : ℕ
  pub norm : Text

pub data Origin : Type 0 where
  manual filename folder technical : Origin

abbrev pub is_manual : Origin → Bool
is_manual manual = true
is_manual _ = false

-- A row of `video_tags`.
pub record Assignment : Type 0 where
  pub video : ℕ
  pub tag : ℕ
  pub origin : Origin

pub record Tables : Type 0 where
  pub videos : List Video
  pub tags : List TagRow
  pub assignments : List Assignment
  pub suppressions : List (ℕ × ℕ)

-- `x >= n` and `x <= n` in SQL
abbrev pub at_least : Option ℤ → ℤ → Bool
at_least none n = false
at_least (some x) n = leb_ℤ n x

abbrev pub at_most : Option ℤ → ℤ → Bool
at_most none n = false
at_most (some x) n = leb_ℤ x n

abbrev pub below : Option ℤ → ℤ → Bool
below none n = false
below (some x) n = ltb_ℤ x n

abbrev pub equals : Option ℤ → ℤ → Bool
equals none n = false
equals (some x) n = eq_ℤ x n

-- `MIN(a, b)`, and `COALESCE(x, 0)`
abbrev pub sql_min : Option ℤ → Option ℤ → Option ℤ
sql_min (some a) (some b) = some (if ltb_ℤ b a then b else a)
sql_min _ _ = none

abbrev pub or_zero : Option ℤ → ℤ
or_zero none = pos 0
or_zero (some x) = x

abbrev pub is_null : Option ℤ → Bool
is_null none = true
is_null (some x) = false

abbrev pub when : Bool → (Video → Bool) → List (Video → Bool)
when b c = if b then c ∷ [] else []

abbrev pub shorter_side : Video → Option ℤ
shorter_side v = sql_min v.display_width v.display_height

-- The preset as `toInt` reads it, if it does.
pub preset_conditions : Option ℕ → List (Video → Bool)
preset_conditions none = []
preset_conditions (some p) =
    when (ltb 0 p)
      (λ v. at_least (shorter_side v) (pos p) && below (shorter_side v) (pos (p + p / 3)))

pub rating_conditions : QuerySpec → List (Video → Bool)
rating_conditions q =
    if eq_ℤ q.rating_mode (pos 1)
    then (λ v. is_null v.rating) ∷ []
    else (if eq_ℤ q.rating_mode (pos 2)
        then (λ v. equals v.rating q.rating_value) ∷ []
        else when (eq_ℤ q.rating_mode (pos 3)) (λ v. not (is_null v.rating)))

module _ (to_int : Text → Option ℕ) (to_u32 : Text → List ℕ) where
  -- The conditions, in the order in which they are appended. `substr` counts code points.
  pub where_for_filters : QuerySpec → List (Video → Bool)
  where_for_filters q =
      when (leb_ℤ (pos 0) q.size_min) (λ v. at_least v.size_bytes q.size_min)
      ++ when (leb_ℤ (pos 0) q.size_max) (λ v. at_most v.size_bytes q.size_max)
      ++ when (ltb_ℤ (pos 0) q.width_min) (λ v. at_least v.display_width q.width_min)
      ++ when (ltb_ℤ (pos 0) q.width_max) (λ v. at_most v.display_width q.width_max)
      ++ when (ltb_ℤ (pos 0) q.height_min) (λ v. at_least v.display_height q.height_min)
      ++ when (ltb_ℤ (pos 0) q.height_max) (λ v. at_most v.display_height q.height_max)
      ++ (if is_empty q.resolution_preset
          then []
          else preset_conditions (to_int q.resolution_preset))
      ++ when (leb_ℤ (pos 0) q.duration_min_ms) (λ v. at_least v.duration_ms q.duration_min_ms)
      ++ when (leb_ℤ (pos 0) q.duration_max_ms) (λ v. at_most v.duration_ms q.duration_max_ms)
      ++ rating_conditions q
      ++ when (leb_ℤ (pos 0) q.rating_min) (λ v. leb_ℤ q.rating_min (or_zero v.rating))
      ++ when (leb_ℤ (pos 0) q.rating_max) (λ v. leb_ℤ (or_zero v.rating) q.rating_max)
      ++ when (leb_ℤ (pos 0) q.root_id) (λ v. eq_ℤ v.root_id q.root_id)
      ++ when (not (is_empty q.folder_prefix)) (λ v.
        eq_text (take (length q.folder_prefix) (to_u32 v.rel_path)) (to_u32 q.folder_prefix))
      ++ when (leb_ℤ (pos 0) q.views_min) (λ v. leb_ℤ q.views_min v.views)
      ++ (elim q.availability [
        | [] ↦ []
        | a ∷ as' ↦ (λ v. elem_text v.availability (a ∷ as')) ∷ []
      ])

-- The assignment is not suppressed, or it is manual.
pub is_visible : Tables → Assignment → Bool
is_visible db a =
    not (any (λ (v, t). v == a.video && t == a.tag) db.suppressions) || is_manual a.origin

-- `EXISTS(SELECT 1 FROM video_tags ...)` for the tags whose name passes
pub has_tag : Tables → (Text → Bool) → ℕ → Bool
has_tag db p video =
    any
      (λ a.
        a.video == video && (is_visible db a && any (λ t. t.tag_id == a.tag && p t.norm) db.tags))
      db.assignments

pub tag_conditions : Tables → QuerySpec → List (Video → Bool)
tag_conditions db q =
    map (λ tag v. has_tag db (eq_text tag) v.id) q.include_all_tags
    ++ map (λ tag v. not (has_tag db (eq_text tag) v.id)) q.exclude_tags
    ++ (elim q.include_any_tags [
      | [] ↦ []
      | t ∷ ts ↦ (λ v. has_tag db (λ n. elem_text n (t ∷ ts)) v.id) ∷ []
    ])

-- `wheres.join(" AND ")`
pub holds : List (Video → Bool) → Video → Bool
holds conditions v = all (λ c. c v) conditions
