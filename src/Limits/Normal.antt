-- ===== src/Limits/Normal.antt =====
-- What normalizing the limits does to limits that a policy file leaves partly unset, and what the
-- checks of a policy promise about the weights.
use session_pressure.Common.{
  ℕ, ◌+◌, ◌-◌, ◌≤◌, ◌<◌, ◌≡◌, refl, ◌≢◌, arith, false, none, leb, ltb, ap, max, Bool-cases, ◌/◌,
  inl, eq-cases, inr, ◌∙◌, min, ◌||◌, not, ◌&&◌, first_error-none,
}
use session_pressure.Common.Int.{ℤ, pos, negsuc}
use session_pressure.Limits.{
  WorkLimits, WorkClass, default_work_limits, normalize_work_limits, fill_missing, weight,
  weight_in, or_default, install, reconcile_fast_lane_defaults, or_default_int, or_default_name,
  SchedulingName, is_unopinionated, express_test, test, is_stale, express_build, build, benchmark,
}
use session_pressure.Limits.Checks.{
  check_work_policy, check_normal, policy_positive, policy_within, policy_checks,
}
use session_pressure.Limits.Defaults.{normalize-default}

or_default_twice : (n d e : ℕ) → 0 < d → or_default (or_default n d) e ≡ or_default n d
or_default_twice n d e h = ground arith

-- What normalizing may assume of the defaults.
record Filled (d : WorkLimits) : Type 0 where
  max_weight_pos : 0 < d.fast_lane_max_weight
  runtime_pos : 0 < d.fast_lane_max_runtime_ms
  ceiling_pos : 0 < d.fast_lane_cpu_ceiling
  revision : d.fast_lane_revision ≡ 2

default-Filled : (cpus : ℕ) → Filled (default_work_limits cpus)
unfolding default_work_limits
default-Filled cpus = ground arith

-- A second reconciliation of the fast lane changes nothing.
reconcile_fast_lane_twice :
    (l d : WorkLimits)
    → Filled d
    → reconcile_fast_lane_defaults (reconcile_fast_lane_defaults l d) d
      ≡ reconcile_fast_lane_defaults l d
unfolding reconcile_fast_lane_defaults
reconcile_fast_lane_twice l d f = ground arith

reconcile_fast_lane-capacity :
    (l d : WorkLimits) → (reconcile_fast_lane_defaults l d).capacity ≡ l.capacity
unfolding reconcile_fast_lane_defaults
reconcile_fast_lane-capacity l d = ground arith

or_default_int_twice :
    (z : ℤ) (d e : ℕ) → 0 < d → or_default_int (or_default_int z d) e ≡ or_default_int z d
or_default_int_twice (pos n) d e h = ap pos (or_default_twice n d e h)
or_default_int_twice (negsuc n) d e h = refl

or_default_name_twice :
    (s : SchedulingName) → or_default_name (or_default_name s) ≡ or_default_name s
or_default_name_twice SchedulingName.unset = refl
or_default_name_twice SchedulingName.other = refl
or_default_name_twice _ = refl

-- Filling in the same fields twice changes nothing.
fill_missing_twice :
    (l : WorkLimits) → 0 < l.capacity → fill_missing (fill_missing l) ≡ fill_missing l
unfolding fill_missing
fill_missing_twice l h = λ i. record (fill_missing l) {
  test_weight =
      or_default_twice l.test_weight (max 1 ((l.capacity + 2) / 3)) (max 1 ((l.capacity + 2) / 3))
        (omega arith) i;
  warning_capacity =
      or_default_twice l.warning_capacity (max 1 (l.capacity / 2)) (max 1 (l.capacity / 2))
        (omega arith) i;
  build_weight =
      or_default_twice l.build_weight (max 1 ((l.capacity + 2) / 2)) (max 1 ((l.capacity + 2) / 2))
        (omega arith) i;
  express_test_weight =
      or_default_twice l.express_test_weight (min 1 l.capacity) (min 1 l.capacity) (omega arith) i;
  express_build_weight =
      or_default_twice l.express_build_weight (min 2 l.capacity) (min 2 l.capacity) (omega arith) i;
  benchmark_weight =
      or_default_twice l.benchmark_weight
        (max 1 (l.capacity - or_default l.express_build_weight (min 2 l.capacity)))
        (max 1 (
          l.capacity
          - or_default (or_default l.express_build_weight (min 2 l.capacity)) (min 2 l.capacity)))
        (omega arith) i;
  scheduling_policy = or_default_name_twice l.scheduling_policy i;
  cpu_block_samples = or_default_twice l.cpu_block_samples 2 2 (omega arith) i;
  cpu_release_samples = or_default_twice l.cpu_release_samples 2 2 (omega arith) i;
  cpu_release_percent = or_default_twice l.cpu_release_percent 80_000 80_000 (omega arith) i;
  install_weight = or_default_twice l.install_weight 1 1 (omega arith) i;
  reclaim_weight = or_default_twice l.reclaim_weight 1 1 (omega arith) i;
  swap_thrash_capacity =
      or_default_twice l.swap_thrash_capacity
        (min l.capacity (or_default l.build_weight (max 1 ((l.capacity + 2) / 2))))
        (min l.capacity (
          or_default (or_default l.build_weight (max 1 ((l.capacity + 2) / 2)))
            (max 1 ((l.capacity + 2) / 2))))
        (ground arith) i;
  external_release_seconds =
      or_default_int_twice l.external_release_seconds 300 300 (omega arith) i;
  agent_share_percent = or_default_twice l.agent_share_percent 25 25 (omega arith) i;
  idle_park_seconds = or_default_int_twice l.idle_park_seconds 120 120 (omega arith) i;
}

-- The fast lane's fields and the others are filled in independently.
fill_missing-reconcile :
    (l d : WorkLimits)
    → fill_missing (reconcile_fast_lane_defaults l d)
      ≡ reconcile_fast_lane_defaults (fill_missing l) d
unfolding fill_missing reconcile_fast_lane_defaults
fill_missing-reconcile l d = elim (Bool-cases (is_unopinionated l)) [
  | inl e ↦ rw e
  | inr e ↦ rw e (elim (Bool-cases (is_stale l d)) [ inl s ↦ rw s | inr s ↦ rw s ])
]

normalize_unset :
    (cpus : ℕ) (l : WorkLimits)
    → l.capacity ≡ 0
    → normalize_work_limits cpus l ≡ default_work_limits cpus
unfolding normalize_work_limits
normalize_unset cpus l h = ground arith

normalize_set :
    (cpus : ℕ) (l : WorkLimits)
    → 0 < l.capacity
    → normalize_work_limits cpus l
      ≡ reconcile_fast_lane_defaults (fill_missing l) (default_work_limits cpus)
unfolding normalize_work_limits
normalize_set cpus l h = ground arith

fill_missing-capacity : (l : WorkLimits) → (fill_missing l).capacity ≡ l.capacity
unfolding fill_missing
fill_missing-capacity l = refl

-- Normalizing limits that are normalized changes nothing, whatever a policy file left unset.
pub normalize_twice :
    (cpus : ℕ) (l : WorkLimits)
    → normalize_work_limits cpus (normalize_work_limits cpus l) ≡ normalize_work_limits cpus l
normalize_twice cpus l = elim (eq-cases l.capacity 0) [
  | inl e ↦ rw (normalize_unset cpus l e) (normalize-default cpus)
  | inr ne ↦
      let d = default_work_limits cpus in
      let positive : 0 < l.capacity = omega arith in
      let kept : 0 < (reconcile_fast_lane_defaults (fill_missing l) d).capacity =
        omega (arith, reconcile_fast_lane-capacity (fill_missing l) d, fill_missing-capacity l) in
      rw (normalize_set cpus l positive) (
        normalize_set cpus (reconcile_fast_lane_defaults (fill_missing l) d) kept
        ∙ ap (λ f. reconcile_fast_lane_defaults f d) (fill_missing-reconcile (fill_missing l) d)
        ∙ reconcile_fast_lane_twice (fill_missing (fill_missing l)) d (default-Filled cpus)
        ∙ ap (λ f. reconcile_fast_lane_defaults f d) (fill_missing_twice l positive))
]

abbrev IsFair : WorkLimits → WorkClass → Type 0
IsFair w class =
    (1 ≤ weight_in w class)
    × (weight_in w class ≤ w.capacity)
    × (w.express_test_weight < w.test_weight)
    × (w.express_build_weight < w.build_weight)
    × (1 ≤ w.swap_thrash_capacity)
    × (w.swap_thrash_capacity ≤ w.capacity)
    × (1 ≤ w.warning_capacity)
    × (w.warning_capacity ≤ w.capacity)
    × (w.benchmark_weight + w.express_test_weight ≤ w.capacity)

positive_lem :
    (w : WorkLimits) (class : WorkClass)
    → not (policy_positive w) ≡ false
    → class ≢ install
    → 1 ≤ weight_in w class
unfolding policy_positive
positive_lem w WorkClass.install h ne = absurd (ne refl)
positive_lem w _ h ne = ground arith

within_lem :
    (w : WorkLimits) (class : WorkClass)
    → not (policy_within w) ≡ false
    → class ≢ install
    → weight_in w class ≤ w.capacity
unfolding policy_within
within_lem w WorkClass.install h ne = absurd (ne refl)
within_lem w _ h ne = ground arith

test_lighter :
    (w : WorkLimits)
    → (leb w.test_weight w.express_test_weight || leb w.build_weight w.express_build_weight) ≡ false
    → w.express_test_weight < w.test_weight
test_lighter w h = ground arith

build_lighter :
    (w : WorkLimits)
    → (leb w.test_weight w.express_test_weight || leb w.build_weight w.express_build_weight) ≡ false
    → w.express_build_weight < w.build_weight
build_lighter w h = ground arith

bounded_lem : (n m : ℕ) → not (leb 1 n && leb n m) ≡ false → (1 ≤ n) × (n ≤ m)
bounded_lem n m h = ground arith

residual_lem :
    (w : WorkLimits)
    → ltb w.capacity (w.benchmark_weight + w.express_test_weight) ≡ false
    → w.benchmark_weight + w.express_test_weight ≤ w.capacity
residual_lem w h = ground arith

check_normal-IsFair :
    (warning : ℕ) (w : WorkLimits) (class : WorkClass)
    → check_normal warning w ≡ none
    → class ≢ install
    → IsFair w class
unfolding check_normal
check_normal-IsFair warning w class h ne =
    let a = first_error-none (policy_checks warning w) h in
    let swap = bounded_lem w.swap_thrash_capacity w.capacity a.1.1.0 in
    let warn = bounded_lem w.warning_capacity w.capacity a.1.1.1.1.1.0 in
    (
      positive_lem w class a.0 ne,
      within_lem w class a.1.1.1.1.1.1.0 ne,
      test_lighter w a.1.1.1.1.1.1.1.0,
      build_lighter w a.1.1.1.1.1.1.1.0,
      swap.0,
      swap.1,
      warn.0,
      warn.1,
      residual_lem w a.1.1.1.1.1.1.1.1.0,
    )

-- What a policy that passes its checks promises: every class but `install` weighs at least 1 and
-- at most the capacity, an express class weighs less than the full one, the derated ceilings lie
-- between 1 and the capacity, and an express test fits beside a benchmark.
pub check_work_policy-weights :
    (cpus host_cpu_warning : ℕ) (l : WorkLimits) (class : WorkClass)
    → check_work_policy cpus host_cpu_warning l ≡ none
    → class ≢ install
    → let w = normalize_work_limits cpus l in
      (1 ≤ weight cpus l class)
      × (weight cpus l class ≤ w.capacity)
      × (weight cpus l express_test < weight cpus l test)
      × (weight cpus l express_build < weight cpus l build)
      × (1 ≤ w.swap_thrash_capacity)
      × (w.swap_thrash_capacity ≤ w.capacity)
      × (1 ≤ w.warning_capacity)
      × (w.warning_capacity ≤ w.capacity)
      × (weight cpus l benchmark + weight cpus l express_test ≤ w.capacity)
unfolding check_work_policy weight
check_work_policy-weights cpus host_cpu_warning l class h ne =
    check_normal-IsFair host_cpu_warning (normalize_work_limits cpus l) class h ne
