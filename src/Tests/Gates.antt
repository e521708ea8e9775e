-- ===== src/Tests/Gates.antt =====
-- The swap-thrash latch and the fast lane on concrete samples.
use session_pressure.Limits.{default_work_limits}
use session_pressure.FastLane.{Inputs, evaluate_fast_lane}
use session_pressure.Common.{arith, true, false, ◌≡◌, none, ◌↔◌, refl}
use session_pressure.SwapThrash.{Sample, Thresholds, ThrashLatch, Published, no_latch, no_cause}
use session_pressure.SwapThrash.Advance.{advance}
use session_pressure.SwapThrash.Episodes.{advance-Honest, Coherent}
use session_pressure.SwapThrash.Verdict.{Settled}
use session_pressure.FastLane.Verdict.{evaluate_fast_lane-Qualifies, Qualifies}

-- A hot sample of a host whose leased work is small.
abbrev hot_sample : Sample
hot_sample = record {
  timestamp = 1_000_000_000_000;
  swap_io_available = true;
  swap_out = 90_000;
  swap_used = 5_000_000;
  physical_memory = 16_000_000;
  work_available = true;
  work_rss = 500_000;
  work_leases = 1;
}

abbrev bounds : Thresholds
bounds = record { thrash = 50_000; release = 10_000 }

abbrev once_hot : ThrashLatch
once_hot = record no_latch { hot = 1 }

abbrev quiet_snapshot : Published
quiet_snapshot = record {
  swap_thrash_latched = false;
  swap_thrash_cause = no_cause;
  swap_thrash_since = 0;
}

-- An episode whose leased work has been small for ten minutes.
abbrev long_episode : ThrashLatch
long_episode = record no_latch {
  latched = true;
  hot = 20;
  since = 300_000_000_000;
  quiet_since = 400_000_000_000;
}

calm_start : Coherent once_hot
calm_start h = cc

advance-Honest_example :
    let a = advance 10 once_hot hot_sample quiet_snapshot bounds (default_work_limits 10) in
    Coherent a.latch
    × (a.published.swap_thrash_latched ≡ a.latch.latched)
    × ((a.event ≡ none)
        → (a.latch.latched ≡ once_hot.latched)
          × ((once_hot.is_external ≡ true) ↔ (a.latch.is_external ≡ true)))
advance-Honest_example =
    advance-Honest 10 once_hot hot_sample quiet_snapshot bounds (default_work_limits 10) calm_start

Settled-start : Settled once_hot
Settled-start = (λ h. omega arith, λ h. omega arith)

-- A short test while nothing is measured and most of the capacity is free.
abbrev short_test : Inputs
short_test = record {
  enabled = true;
  dimension = "cpu";
  weight = 1;
  max_weight = 2;
  calibrated_p95_runtime_ms = 5_000;
  calibration_available = true;
  max_runtime_ms = 120_000;
  free_capacity = 6;
  capacity = 8;
  coordinated_cpu_available = false;
  coordinated_cpu_percent = 0;
  coordinated_cpu_ceiling = 50_000;
}

short_admitted : evaluate_fast_lane short_test ≡ none
unfolding evaluate_fast_lane
short_admitted = refl

evaluate_fast_lane-Qualifies_example : (evaluate_fast_lane short_test ≡ none) ↔ Qualifies short_test
evaluate_fast_lane-Qualifies_example = evaluate_fast_lane-Qualifies short_test
