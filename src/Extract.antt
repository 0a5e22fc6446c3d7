-- ===== src/Extract.antt =====
-- src/media/Extract.cpp: the plan of the sample times of a storyboard.
pub mod Plan
mod Tests
use scrub_tub.Base.{
  ℕ, suc, zero, ◌+◌, ◌*◌, ◌/◌, Bool, ◌||◌, List, [], ◌∷◌, leb, ltb, if◌then◌else◌, min, max, ℤ,
  pos_part, pos, leb_ℤ,
}

-- The number of samples of a clip of that length.
pub sample_count : ℕ → ℕ → ℕ
sample_count duration samples =
    min (if ltb duration 12000 then max 2 (duration / 500) else samples) samples

-- The loop from `k` on, with the iterations that are left.
pub plan_from : ℕ → ℕ → ℕ → ℕ → List ℕ
plan_from duration count k zero = []
plan_from duration count k (suc left) =
    duration * (2 * k + 1) / (2 * count) ∷ plan_from duration count (k + 1) left

pub sample_plan_ms : ℤ → ℤ → List ℕ
sample_plan_ms duration samples =
    let count = sample_count (pos_part duration) (pos_part samples) in
    if leb_ℤ duration (pos 0) || leb_ℤ samples (pos 0)
    then []
    else plan_from (pos_part duration) count 0 count
