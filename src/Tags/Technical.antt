-- ===== src/Tags/Technical.antt =====
-- The resolution buckets and technical tags, and the typo budget.
use scrub_tub.Base.{
  ℕ, ◌+◌, ◌≡◌, ◌≤◌, true, ◌&&◌, [], arith, if◌then◌else◌, Text, codes, eq_text, ℤ, pos, leb_ℤ,
  ltb_ℤ,
}
use scrub_tub.Tags.{resolution_bucket, edit_distance_limit}

-- The buckets with the range of the shorter side that each stands for.
abbrev pub bucket_of : ℤ → Text
bucket_of side =
    if ltb_ℤ side (pos 480)
    then []
    else (if ltb_ℤ side (pos 720)
        then codes "480"
        else (if ltb_ℤ side (pos 1080)
            then codes "720"
            else (if ltb_ℤ side (pos 1440)
                then codes "1080"
                else (if ltb_ℤ side (pos 2160) then codes "1440" else codes "2160"))))

-- The shorter side.
abbrev pub min_side : ℤ → ℤ → ℤ
min_side w h = if leb_ℤ w h then w else h

-- The bucket of a video depends on its shorter side alone: it is the range, from 480 up, that this
-- side lies in, and none where the side is below 480, zero and negative sides included. So turning
-- a video on its side does not change its bucket.
pub resolution_bucket_lem :
    (w h : ℤ)
    → (resolution_bucket w h ≡ bucket_of (min_side w h))
      × (resolution_bucket w h ≡ resolution_bucket h w)
unfolding resolution_bucket
resolution_bucket_lem w h = (ground arith, ground arith)

-- The typo budget does not shrink as the token grows, is at most 2, and is at most half of the
-- token's length.
pub edit_distance_limit_lem :
    (m n : ℕ)
    → m ≤ n
    → (edit_distance_limit m ≤ edit_distance_limit n)
      × ((edit_distance_limit n ≤ 2) × (edit_distance_limit n + edit_distance_limit n ≤ n))
unfolding edit_distance_limit
edit_distance_limit_lem m n h = (ground arith, (ground arith, ground arith))

pub resolution_bucket-full_hd :
    (w h : ℤ)
    → ltb_ℤ (pos 0) w ≡ true
    → ltb_ℤ (pos 0) h ≡ true
    → eq_text (resolution_bucket w h) (codes "1080")
      ≡ (leb_ℤ (pos 1080) (min_side w h) && ltb_ℤ (min_side w h) (pos 1440))
unfolding resolution_bucket
resolution_bucket-full_hd w h p q = ground arith
