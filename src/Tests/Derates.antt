-- ===== src/Tests/Derates.antt =====
-- A build at a gate, while memory thrashes and while the CPU warns.
use session_pressure.Common.{
  true, none, some, false, ◌≡◌, ◌+◌, if◌then◌else◌, ◌⊎◌, refl, ltb, ◌≤◌, ◌<◌, ◌&&◌, ◌↔◌, leb,
}
use session_pressure.Gate.{
  Gate, Admission, Snapshot, Status, swap_thrash_decision, warning_capacity_decision, defers,
  admits, falls_through, swap, cpu, warning, uncorroborated_cpu_red,
}
use session_pressure.Gate.Derating.{
  swap_thrash_decision_defers, warning_capacity_decision_admits, uncorroborated_cpu_red_levels,
}
use session_pressure.Limits.{build, default_work_limits, weight, normalize_work_limits}
use session_pressure.SwapThrash.{agents}

abbrev thrashing : Snapshot
thrashing = record {
  swap_io_available = true;
  swap_thrash_latched = true;
  swap_thrash_cause = agents;
  host_cpu_available = true;
  host_cpu_percent = 80_000;
  host_cpu_rolling_available = true;
  host_cpu_rolling_percent = 80_000;
  consecutive_samples = 0;
}

abbrev warned : Admission
warned = record { allowed = true; level = warning; dimension = cpu; snapshot = some thrashing }

-- Other work holds seven units.
abbrev seven_used : Status
seven_used = record { used = 7; admission_latch = none }

abbrev build_gate : Gate
build_gate = record {
  cpus = 10;
  limits = default_work_limits 10;
  class = some build;
  latched = false;
  cpu_red_percent = 0;
  warning_capacity_status = some (some seven_used);
  swap_thrash_enforced = true;
  swap_thrash_admitted = false;
  swap_thrash_deferred = false;
  swap_thrash_external = false;
  warning_capacity_admitted = false;
  warning_capacity_deferred = false;
}

swap_thrash_decision_defers_example : (swap_thrash_decision build_gate warned false).1 ≡ (
    if ltb
      (normalize_work_limits 10 (default_work_limits 10)).swap_thrash_capacity
      (7 + weight 10 (default_work_limits 10) build)
    then defers swap
    else falls_through)
swap_thrash_decision_defers_example =
    swap_thrash_decision_defers build_gate warned false build thrashing seven_used refl refl refl

warning_capacity_decision_admits_example : (warning_capacity_decision build_gate warned false).1 ≡ (
    if (true && true)
      && (normalize_work_limits 10 (default_work_limits 10)).warning_capacity_enabled
      && true
      && true
    then (if leb
          (7 + weight 10 (default_work_limits 10) build)
          (normalize_work_limits 10 (default_work_limits 10)).warning_capacity
        then admits cpu
        else defers cpu)
    else falls_through)
warning_capacity_decision_admits_example =
    warning_capacity_decision_admits build_gate warned false build seven_used refl refl

-- One sample at 96 percent of CPU, above a rolling mean of 80, on a host at level warning.
abbrev spike : Snapshot
spike = record thrashing { host_cpu_percent = 96_000; consecutive_samples = 1 }

abbrev spiking : Admission
spiking = record warned { snapshot = some spike }

uncorroborated_cpu_red_levels_example :
    (uncorroborated_cpu_red build_gate spiking ≡ true)
    ↔ (true ≡ true)
      × (true ≡ true)
      × (true ≡ true)
      × (true ≡ true)
      × (95_000 ≤ 96_000)
      × ((true ≡ false) ⊎ (80_000 < 95_000))
      × ((1 < 2) ⊎ (1 < (default_work_limits 10).cpu_block_samples))
uncorroborated_cpu_red_levels_example = uncorroborated_cpu_red_levels build_gate spiking spike refl
