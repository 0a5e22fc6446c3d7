-- ===== src/Extract/Tests.antt =====
-- The plan of a concrete clip.
use scrub_tub.Base.{◌≡◌, ◌≤◌, ◌<◌, refl, true, [], ◌∷◌, pos, length, all, ltb, arith}
use scrub_tub.Extract.{sample_count, plan_from, sample_plan_ms}
use scrub_tub.Extract.Plan.{sample_plan_ms_lem}

planned : sample_plan_ms (pos 3000) (pos 4) ≡ 375 ∷ 1125 ∷ 1875 ∷ 2625 ∷ []
unfolding sample_plan_ms sample_count plan_from
planned = refl

sample_plan_ms_lem_example :
    (length (sample_plan_ms (pos 3000) (pos 4)) ≡ sample_count 3000 4)
    × (((0 < sample_count 3000 4) × (sample_count 3000 4 ≤ 4))
        × (all (λ t. ltb t 3000) (sample_plan_ms (pos 3000) (pos 4)) ≡ true))
sample_plan_ms_lem_example = sample_plan_ms_lem 3000 4 (omega arith) (omega arith)
