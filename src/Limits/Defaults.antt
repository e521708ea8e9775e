-- ===== src/Limits/Defaults.antt =====
-- What the default limits promise on every host.
use session_pressure.Common.{ℕ, ◌+◌, ◌*◌, ◌≤◌, ◌<◌, ◌≡◌, arith, none}
use session_pressure.Limits.{
  Shares, default_shares, default_work_limits, normalize_work_limits, weight, build, benchmark,
  express_test, benchmark_exclusive, fill_missing, reconcile_fast_lane_defaults,
}
use session_pressure.Limits.Checks.{check_work_policy, check_normal}

-- What the first step of the defaults settles.
record SharesOk (s : Shares) : Type 0 where
  capacity_pos : 3 ≤ s.share_capacity
  test_in : (s.share_express_test < s.share_test) × (s.share_test ≤ s.share_capacity)
  build_in : (s.share_express_build < s.share_build) × (s.share_build ≤ s.share_capacity)
  express : (s.share_express_test ≡ 1) × (s.share_express_build ≡ 2)
  bench : (1 ≤ s.share_benchmark) × (s.share_benchmark + s.share_express_test ≤ s.share_capacity)
  majority : s.share_capacity < 2 * s.share_build

default_shares-SharesOk : (cpus : ℕ) → SharesOk (default_shares cpus)
unfolding default_shares
default_shares-SharesOk cpus = ground arith

-- The default limits are their own normal form.
pub normalize-default :
    (cpus : ℕ) → normalize_work_limits cpus (default_work_limits cpus) ≡ default_work_limits cpus
unfolding normalize_work_limits fill_missing reconcile_fast_lane_defaults default_work_limits
normalize-default cpus = let s = default_shares-SharesOk cpus in ground arith

-- On a host with any number of processors the default limits pass every check of the policy, for
-- each CPU warning threshold above 80 percent.
pub default-check_work_policy :
    (cpus host_cpu_warning : ℕ)
    → 80_000 < host_cpu_warning
    → check_work_policy cpus host_cpu_warning (default_work_limits cpus) ≡ none
unfolding check_work_policy check_normal default_work_limits
default-check_work_policy cpus host_cpu_warning h =
    rw (normalize-default cpus) (let s = default_shares-SharesOk cpus in ground arith)

-- Two full builds never fit together under the default limits, and an express test always fits
-- beside a benchmark.
pub default_overlaps :
    (cpus : ℕ)
    → let l = default_work_limits cpus in
      (l.capacity < weight cpus l build + weight cpus l build)
      × (weight cpus l benchmark + weight cpus l express_test ≤ l.capacity)
      × (weight cpus l benchmark_exclusive ≡ l.capacity)
unfolding weight default_work_limits
default_overlaps cpus =
    rw (normalize-default cpus) (let s = default_shares-SharesOk cpus in ground arith)
