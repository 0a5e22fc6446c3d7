-- ===== src/Query/Scan/Tests.antt =====
-- A search over a concrete table.
use scrub_tub.Base.{
  ℕ, ◌≡◌, true, false, ◌&&◌, Option, none, [], ◌∷◌, ◌==◌, elem, any, is_empty, pos, minus_one,
  codes, length,
}
use scrub_tub.Tags.{Unicode}
use scrub_tub.Search.{SearchRecord, difference, fold_query}
use scrub_tub.Query.{QuerySpec, Tables}
use scrub_tub.Query.Tests.{sunset}
use scrub_tub.Query.Scan.{Platform, search}
use scrub_tub.Query.Scan.Admitted.{is_valid, is_admitted}
use scrub_tub.Query.Scan.Results.{search-results, is_match}

abbrev plain : Unicode
plain = record {
  is_letter = λ c. true;
  is_digit = λ c. false;
  is_upper = λ c. false;
  is_lower = λ c. true;
  is_letter_or_number = λ c. true;
  is_nonspacing_mark = λ c. false;
  is_spacing_mark = λ c. false;
  normalized_kd = λ t. t;
  normalized_kc = λ t. t;
  to_case_folded = λ t. t;
  trimmed = λ t. t;
}

abbrev platform : Platform
platform = record {
  unicode = plain;
  levenshtein = λ a b. difference (length a) (length b);
  to_u32 = λ t. t;
  to_int = λ t. none;
  split_query = λ t. t ∷ [];
  compare = λ a b. pos 0;
  collate = λ a b. pos 0;
}

abbrev spec : QuerySpec
spec = record {
  text = codes "sun";
  size_min = minus_one;
  size_max = minus_one;
  width_min = pos 0;
  width_max = pos 0;
  height_min = pos 0;
  height_max = pos 0;
  resolution_preset = [];
  duration_min_ms = minus_one;
  duration_max_ms = minus_one;
  rating_mode = pos 0;
  rating_value = pos 0;
  rating_min = minus_one;
  rating_max = minus_one;
  include_all_tags = [];
  include_any_tags = [];
  exclude_tags = [];
  root_id = minus_one;
  folder_prefix = [];
  views_min = minus_one;
  availability = [];
  sort_key = codes "added";
  sort_descending = false;
  user_sort = false;
}

abbrev tables : Tables
tables = record { videos = sunset ∷ []; tags = []; assignments = []; suppressions = [] }

abbrev no_records : ℕ → Option SearchRecord
no_records n = none

search-results_example :
    (elem 4 (search platform tables no_records spec).0 ≡ (
      is_valid spec (codes "sun" ∷ [])
      && any
          (λ v.
            is_admitted platform.to_int platform.to_u32 tables spec v
            && (is_match platform tables no_records (fold_query plain (codes "sun" ∷ [])) v
                && v.id == 4))
          (sunset ∷ [])))
    × (is_empty (search platform tables no_records spec).1 ≡ is_valid spec (codes "sun" ∷ []))
search-results_example = search-results platform tables no_records spec 4
