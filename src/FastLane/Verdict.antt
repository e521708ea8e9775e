-- ===== src/FastLane/Verdict.antt =====
-- What the fast lane's verdict demands, and that more room never turns it down.
use session_pressure.Common.{
  ◌≡◌, ℕ, true, none, ◌≤◌, ◌⊎◌, ◌↔◌, false, ◌*◌, arith, if◌then◌else◌, ◌==◌,
}
use text.Mathlib.Text.{◌==◌ as str_eq}
use session_pressure.FastLane.{Inputs, evaluate_fast_lane}

-- The conditions that the code tests, as one predicate; a percentage is in thousandths.
abbrev pub Qualifies : Inputs → Type 0
Qualifies i =
    (i.enabled ≡ true)
    × (str_eq i.dimension "cpu" ≡ true)
    × (1 ≤ i.max_weight)
    × (i.weight ≤ i.max_weight)
    × (i.calibration_available ≡ true)
    × (1 ≤ i.max_runtime_ms)
    × (i.calibrated_p95_runtime_ms ≤ i.max_runtime_ms)
    × (i.weight ≤ i.free_capacity)
    × (((i.coordinated_cpu_available ≡ true)
          × (i.coordinated_cpu_percent
              ≤ (if i.coordinated_cpu_ceiling == 0 then 50_000 else i.coordinated_cpu_ceiling)))
        ⊎ ((i.coordinated_cpu_available ≡ false)
            × (1 ≤ i.capacity)
            × (i.capacity ≤ i.free_capacity * 2)))

-- The fast lane admits exactly the work that meets every condition: the lane is enabled, the pressure
-- dimension is CPU, the work is no heavier than the bound and was measured to run no longer than the
-- bound, both bounds being set, it fits the free weight, and the measured share of what is under lease
-- is at most its ceiling, 50 percent where none is set, or, where nothing measures it, at least half of
-- a capacity that is not zero is free.
pub evaluate_fast_lane-Qualifies : (i : Inputs) → (evaluate_fast_lane i ≡ none) ↔ Qualifies i
unfolding evaluate_fast_lane
evaluate_fast_lane-Qualifies i = (λ h. ground arith, λ h. ground arith)

-- Freeing capacity, or lighter work, never takes an admission back.
pub evaluate_fast_lane_monotone :
    (i : Inputs) (free weight : ℕ)
    → i.free_capacity ≤ free
    → weight ≤ i.weight
    → evaluate_fast_lane i ≡ none
    → evaluate_fast_lane (record i { free_capacity = free; weight = weight }) ≡ none
unfolding evaluate_fast_lane
evaluate_fast_lane_monotone i free weight f w h = ground arith
