-- ===== src/TagStore/Tests.antt =====
-- The tags of a concrete video.
use scrub_tub.Base.{
  ℕ, ◌+◌, ◌≡◌, refl, true, false, List, [], ◌∷◌, codes, eq_text, length, pos, is_empty,
}
use scrub_tub.Tags.{Unicode, normalize}
use scrub_tub.Query.{Tables, TagRow, Origin, is_manual, is_visible, has_tag}
use scrub_tub.TagStore.{TagSource, add_manual_tag, suppress_auto_tag, apply_auto_tags}
use scrub_tub.TagStore.Visibility.{add_manual_tag-has_tag, suppress_auto_tag-is_visible}
use scrub_tub.TagStore.Regeneration.{IsUntouched, apply_auto_tags-IsUntouched}

abbrev plain : Unicode
plain = record {
  is_letter = λ c. true;
  is_digit = λ c. false;
  is_upper = λ c. false;
  is_lower = λ c. true;
  is_letter_or_number = λ c. true;
  is_nonspacing_mark = λ c. false;
  is_spacing_mark = λ c. false;
  normalized_kd = λ t. t;
  normalized_kc = λ t. t;
  to_case_folded = λ t. t;
  trimmed = λ t. t;
}

abbrev next_id : List TagRow → ℕ
next_id ts = length ts + 1

-- A video whose tag of the folder is suppressed.
abbrev tagged : Tables
tagged = record {
  videos = [];
  tags = (record { tag_id = 1; norm = codes "sea" }) ∷ [];
  assignments = (record { video = 4; tag = 1; origin = Origin.folder }) ∷ [];
  suppressions = (4, 1) ∷ [];
}

abbrev source : TagSource
source = record {
  stem = codes "sunset";
  folders = codes "sea" ∷ [];
  codec = codes "h264";
  width = pos 1920;
  height = pos 1080;
}

sea_is_named : is_empty (normalize plain (codes "sea")) ≡ false
unfolding normalize
sea_is_named = refl

add_manual_tag-has_tag_example :
    has_tag
      (add_manual_tag plain next_id 4 (codes "sea") tagged)
      (eq_text (normalize plain (codes "sea")))
      4
    ≡ true
add_manual_tag-has_tag_example =
    add_manual_tag-has_tag plain next_id 4 (codes "sea") tagged sea_is_named

suppress_auto_tag-is_visible_example :
    is_visible
      (suppress_auto_tag 4 1 tagged)
      (record { video = 4; tag = 1; origin = Origin.folder })
    ≡ is_manual Origin.folder
suppress_auto_tag-is_visible_example = suppress_auto_tag-is_visible 4 1 Origin.folder tagged

apply_auto_tags-IsUntouched_example :
    IsUntouched 4 tagged (apply_auto_tags plain next_id 4 source tagged)
apply_auto_tags-IsUntouched_example = apply_auto_tags-IsUntouched plain next_id 4 source tagged
