-- ===== src/Tags/Tests.antt =====
-- Tags of concrete names over the ASCII part of the tables.
use scrub_tub.Base.{
  ℕ, ◌+◌, ◌≡◌, refl, Bool, true, false, ◌&&◌, ◌||◌, not, [], ◌∷◌, leb, if◌then◌else◌, Text, codes,
  map, pos, keep_if, All, any, elem_text, DistinctTexts,
}
use scrub_tub.Tags.{
  Unicode, mixed_from, is_meaningful_mixed, normalize, flush, take_unit, tokenize_from, tokenize,
  is_tag, is_ignored, tags_from, filename_tags, append_all, folders_from, folder_tags,
  resolution_bucket, edit_distance_limit, technical_tags, codec_tags, resolution_tags,
}
use scrub_tub.Tags.Tokens.{tokenize_lem, concat, is_token}
use scrub_tub.Tags.Filenames.{
  is_meaningful_mixed_lem, has_letter_pair, is_admissible, is_token_of, folder_tags_lem,
}
use scrub_tub.Tags.Technical.{resolution_bucket_lem, bucket_of}

program : Unit {0}
unfolding mixed_from is_meaningful_mixed normalize flush take_unit tokenize_from tokenize is_tag
    is_ignored tags_from filename_tags append_all folders_from folder_tags resolution_bucket
    edit_distance_limit technical_tags codec_tags resolution_tags
program = tt

abbrev within : ℕ → ℕ → ℕ → Bool
within a b c = leb a c && leb c b

abbrev lower : ℕ → ℕ
lower c = if within 65 90 c then c + 32 else c

abbrev ascii : Unicode
ascii = record {
  is_letter = λ c. within 65 90 c || within 97 122 c;
  is_digit = within 48 57;
  is_upper = within 65 90;
  is_lower = within 97 122;
  is_letter_or_number = λ c. within 48 57 c || (within 65 90 c || within 97 122 c);
  is_nonspacing_mark = λ c. false;
  is_spacing_mark = λ c. false;
  normalized_kd = λ t. t;
  normalized_kc = λ t. t;
  to_case_folded = map lower;
  trimmed = λ t. t;
}

abbrev stem : Text
stem = codes "BeachTrip_2019 final beach 4k"

tokens :
    tokenize ascii stem
    ≡ codes "Beach" ∷ codes "Trip" ∷ codes "2019" ∷ codes "final" ∷ codes "beach" ∷ codes "4k" ∷ []
unfolding program
tokens = refl

tags : filename_tags ascii stem ≡ codes "beach" ∷ codes "trip" ∷ []
unfolding program
tags = refl

technical :
    technical_tags ascii (codes "H264") (pos 1920) (pos 1080)
    ≡ codes "codec:h264" ∷ codes "resolution:1080" ∷ []
unfolding program
technical = refl

tokenize_lem_example :
    (concat (tokenize ascii stem) ≡ keep_if (Unicode.is_letter_or_number ascii) stem)
    × All (λ x. is_token ascii x ≡ true) (tokenize ascii stem)
tokenize_lem_example = tokenize_lem ascii stem

is_meaningful_mixed_lem_example : is_meaningful_mixed ascii (codes "ab1") ≡ (
    has_letter_pair ascii false (codes "ab1")
    && any (λ c. not (Unicode.is_letter ascii c) && Unicode.is_digit ascii c) (codes "ab1"))
is_meaningful_mixed_lem_example = is_meaningful_mixed_lem ascii (codes "ab1")

folder_tags_lem_example :
    (elem_text (codes "trip") (folder_tags ascii (stem ∷ []))
      ≡ (is_admissible ascii (codes "trip") && any (is_token_of ascii (codes "trip")) (stem ∷ [])))
    × DistinctTexts (folder_tags ascii (stem ∷ []))
folder_tags_lem_example = folder_tags_lem ascii (stem ∷ []) (codes "trip")

resolution_bucket_lem_example :
    (resolution_bucket (pos 1920) (pos 1080) ≡ bucket_of (pos 1080))
    × (resolution_bucket (pos 1920) (pos 1080) ≡ resolution_bucket (pos 1080) (pos 1920))
resolution_bucket_lem_example = resolution_bucket_lem (pos 1920) (pos 1080)
