-- ===== src/Query/Tests.antt =====
-- The preset of a concrete video.
use scrub_tub.Base.{◌≡◌, refl, none, some, pos, codes, eq_text}
use scrub_tub.Tags.{resolution_bucket}
use scrub_tub.Query.{Video, preset_conditions, holds}
use scrub_tub.Query.Presets.{preset-resolution_bucket}

abbrev pub sunset : Video
sunset = record {
  id = 4;
  root_id = pos 1;
  rel_path = codes "a/sunset.mp4";
  file_name = codes "sunset.mp4";
  size_bytes = some (pos 900);
  display_width = some (pos 1920);
  display_height = some (pos 1080);
  duration_ms = some (pos 60000);
  rating = none;
  views = pos 0;
  availability = codes "available";
  added_ms = pos 5;
  mtime_ms = some (pos 3);
  last_opened_ms = none;
}

preset-resolution_bucket_example :
    holds (preset_conditions (some 1080)) sunset
    ≡ eq_text (resolution_bucket (pos 1920) (pos 1080)) (codes "1080")
preset-resolution_bucket_example =
    preset-resolution_bucket sunset (pos 1920) (pos 1080) refl refl refl refl
