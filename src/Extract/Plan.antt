-- ===== src/Extract/Plan.antt =====
-- The bounds of a sample plan.
use native.Mathlib.Nat.{div-lt_iff_lt-mul, mul-lt-mul_of_pos_left}
use scrub_tub.Base.{
  ℕ, suc, zero, ◌+◌, ◌*◌, ◌/◌, ◌≡◌, ◌≤◌, ◌<◌, refl, true, ltb, pos, length, all, arith,
}
use scrub_tub.Extract.{sample_count, plan_from, sample_plan_ms}

length-plan_from : (d c k n : ℕ) → length (plan_from d c k n) ≡ n
unfolding plan_from
length-plan_from d c k zero = refl
length-plan_from d c k (suc n) = omega (arith, length-plan_from d c (k + 1) n)

-- A sample lies strictly within the clip.
below_duration : (d c k : ℕ) → 0 < d → k < c → d * (2 * k + 1) / (2 * c) < d
below_duration d c k p q =
    (div-lt_iff_lt-mul {k = 2 * c} {x = d * (2 * k + 1)} {y = d} (omega (arith, q))).1
      (mul-lt-mul_of_pos_left (omega (arith, q)) p)

plan_from_below : (d c k n : ℕ) → 0 < d → k + n ≤ c → all (λ t. ltb t d) (plan_from d c k n) ≡ true
unfolding plan_from
plan_from_below d c k zero p q = refl
plan_from_below d c k (suc n) p q = ground (
  arith,
  below_duration d c k p (omega (arith, q)),
  plan_from_below d c (k + 1) n p (omega (arith, q)),
)

-- A clip of known length gets at least one sample where any are wanted and never more than are
-- wanted, as many as its length and the wish allow, and every sample lies before its end.
pub sample_plan_ms_lem :
    (d n : ℕ)
    → 0 < d
    → 0 < n
    → (length (sample_plan_ms (pos d) (pos n)) ≡ sample_count d n)
      × (((0 < sample_count d n) × (sample_count d n ≤ n))
          × (all (λ t. ltb t d) (sample_plan_ms (pos d) (pos n)) ≡ true))
unfolding sample_plan_ms sample_count
sample_plan_ms_lem d n p q =
    let c = sample_count d n in
    (
      ground (arith, length-plan_from d c 0 c),
      ((ground arith, ground arith), ground (arith, plan_from_below d c 0 c p (omega arith))),
    )
