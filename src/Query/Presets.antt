-- ===== src/Query/Presets.antt =====
-- The resolution preset of a query against the resolution tag of a video.
use scrub_tub.Base.{◌≡◌, true, some, arith, ℤ, pos, ltb_ℤ, codes, eq_text}
use scrub_tub.Tags.{resolution_bucket}
use scrub_tub.Tags.Technical.{resolution_bucket-full_hd}
use scrub_tub.Query.{Video, preset_conditions, holds}

-- For a video whose sides are known, the preset 1080 admits exactly the videos of the bucket 1080.
pub preset-resolution_bucket :
    (v : Video) (w h : ℤ)
    → v.display_width ≡ some w
    → v.display_height ≡ some h
    → ltb_ℤ (pos 0) w ≡ true
    → ltb_ℤ (pos 0) h ≡ true
    → holds (preset_conditions (some 1080)) v ≡ eq_text (resolution_bucket w h) (codes "1080")
unfolding preset_conditions holds
preset-resolution_bucket v w h ew eh pw ph =
    ground (arith, ew, eh, resolution_bucket-full_hd w h pw ph)
