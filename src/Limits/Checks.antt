-- ===== src/Limits/Checks.antt =====
-- The checks that limits pass: `WorkCoordinator.validate` of sessionpressure/worklease.go and
-- `Policy.Validate` of sessionpressure/policy.go.
use session_pressure.Common.Int.{ℤ, pos_part}
use session_pressure.Common.{
  Bool, ℕ, leb, Option, true, ltb, ◌&&◌, List, if◌then◌else◌, false, not, first_error, some, ◌∷◌,
  none, ◌||◌, ◌+◌, [],
}
use session_pressure.Limits.{
  WorkLimits, SchedulingName, fifo, bounded_lookahead, normalize_work_limits,
  min_external_release_seconds,
}

-- The checks of `WorkCoordinator.validate` on its limits.
pub data LimitsError : Type 0 where
  not_positive exceeds_capacity : LimitsError

unfoldable pub all_positive : WorkLimits → Bool
all_positive w =
    leb 1 w.capacity
    && leb 1 w.test_weight
    && leb 1 w.build_weight
    && leb 1 w.express_test_weight
    && leb 1 w.express_build_weight
    && leb 1 w.emulator_weight
    && leb 1 w.browser_weight
    && leb 1 w.heavy_weight
    && leb 1 w.benchmark_weight

unfoldable pub all_within : WorkLimits → Bool
all_within w =
    leb w.test_weight w.capacity
    && leb w.build_weight w.capacity
    && leb w.express_test_weight w.capacity
    && leb w.express_build_weight w.capacity
    && leb w.emulator_weight w.capacity
    && leb w.browser_weight w.capacity
    && leb w.heavy_weight w.capacity
    && leb w.benchmark_weight w.capacity

unfoldable pub validate_limits : ℕ → WorkLimits → Option LimitsError
unfolding all_positive all_within
validate_limits cpus l =
    let w = normalize_work_limits cpus l in
    if not (all_positive w)
    then some not_positive
    else if not (all_within w)
    then some exceeds_capacity
    else none

abbrev pub min_idle_park_seconds : ℕ
min_idle_park_seconds = 30

-- The checks of `Policy.Validate` on the work limits, in the order of the source.
pub data PolicyError : Type 0 where
  bad_weights bad_idle_park bad_swap_capacity bad_external_release bad_agent_share : PolicyError
  bad_warning_capacity too_heavy express_not_lighter no_residual bad_scheduling : PolicyError
  bad_samples bad_release_percent : PolicyError

abbrev pub known_policy : SchedulingName → Bool
known_policy bounded_lookahead = true
known_policy fifo = true
known_policy _ = false

-- A positive number of seconds below the least one; zero and negative values have a meaning.
abbrev pub too_short : ℤ → ℕ → Bool
too_short z least = ltb 0 (pos_part z) && ltb (pos_part z) least

-- The positive weights and the capacity, before the ceilings.
unfoldable pub policy_positive : WorkLimits → Bool
unfolding all_positive
policy_positive w = all_positive w && leb 1 w.reclaim_weight

unfoldable pub policy_within : WorkLimits → Bool
unfolding all_within
policy_within w = all_within w && leb w.reclaim_weight w.capacity

unfoldable pub policy_checks : ℕ → WorkLimits → List (Bool × PolicyError)
policy_checks host_cpu_warning w =
    (not (policy_positive w), bad_weights)
    ∷ (too_short w.idle_park_seconds min_idle_park_seconds, bad_idle_park)
    ∷ (
      not (leb 1 w.swap_thrash_capacity && leb w.swap_thrash_capacity w.capacity),
      bad_swap_capacity,
    )
    ∷ (too_short w.external_release_seconds min_external_release_seconds, bad_external_release)
    ∷ (not (leb 1 w.agent_share_percent && leb w.agent_share_percent 100), bad_agent_share)
    ∷ (not (leb 1 w.warning_capacity && leb w.warning_capacity w.capacity), bad_warning_capacity)
    ∷ (not (policy_within w), too_heavy)
    ∷ (
      leb w.test_weight w.express_test_weight || leb w.build_weight w.express_build_weight,
      express_not_lighter,
    )
    ∷ (ltb w.capacity (w.benchmark_weight + w.express_test_weight), no_residual)
    ∷ (not (known_policy w.scheduling_policy), bad_scheduling)
    ∷ (not (leb 1 w.cpu_block_samples && leb 1 w.cpu_release_samples), bad_samples)
    ∷ (
      not (ltb 0 w.cpu_release_percent && ltb w.cpu_release_percent host_cpu_warning),
      bad_release_percent,
    )
    ∷ []

unfoldable pub check_normal : ℕ → WorkLimits → Option PolicyError
unfolding policy_checks policy_positive policy_within
check_normal host_cpu_warning w = first_error (policy_checks host_cpu_warning w)

unfoldable pub check_work_policy : ℕ → ℕ → WorkLimits → Option PolicyError
check_work_policy cpus host_cpu_warning l =
    check_normal host_cpu_warning (normalize_work_limits cpus l)
