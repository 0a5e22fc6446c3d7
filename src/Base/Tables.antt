-- ===== src/Base/Tables.antt =====
-- QHash and QSet as functions with an update.
use Prim.Native.Nat.{ℕ}
use scrub_tub.Base.Tests.{◌==◌, if◌then◌else◌}

-- `f` with the value at `k` given anew.
abbrev pub update {ℓ} : {V : Type ℓ} → ℕ → V → (ℕ → V) → ℕ → V
update k v f j = if k == j then v else f j
