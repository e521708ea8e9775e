-- ===== src/Tests/Policies.antt =====
-- The defaults of a host with ten processors.
use session_pressure.Common.{◌≢◌, ◌≤◌, ◌<◌, arith, ◌+◌}
use session_pressure.Limits.{
  benchmark, express_test, express_build, test, build, install, WorkLimits, normalize_work_limits,
  default_work_limits, weight,
}
use session_pressure.Limits.Normal.{check_work_policy-weights}
use session_pressure.Limits.Defaults.{default-check_work_policy}

-- A policy file that sets only the capacity.
abbrev only_capacity : WorkLimits
only_capacity = record (default_work_limits 10) { capacity = 12; test_weight = 0 }

build_is_no_install : build ≢ install
build_is_no_install e = cc

check_work_policy-weights_example :
    let l = default_work_limits 10 in
    let w = normalize_work_limits 10 l in
    (1 ≤ weight 10 l build)
    × (weight 10 l build ≤ w.capacity)
    × (weight 10 l express_test < weight 10 l test)
    × (weight 10 l express_build < weight 10 l build)
    × (1 ≤ w.swap_thrash_capacity)
    × (w.swap_thrash_capacity ≤ w.capacity)
    × (1 ≤ w.warning_capacity)
    × (w.warning_capacity ≤ w.capacity)
    × (weight 10 l benchmark + weight 10 l express_test ≤ w.capacity)
check_work_policy-weights_example =
    check_work_policy-weights 10 85_000 (default_work_limits 10) build
      (default-check_work_policy 10 85_000 (omega arith)) build_is_no_install
