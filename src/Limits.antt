-- ===== src/Limits.antt =====
-- The weighted limits of heavy work: sessionpressure/policy.go (WorkLimits and its defaults) and
-- the class weights of sessionpressure/worklease.go.
--
-- Whole settings that the source keeps in `int` are natural numbers; the two whose negative values
-- are documented are of ℤ. Percentages are numbers of thousandths of a percent. `runtime.NumCPU()`
-- is the argument `cpus`.
pub mod Checks
pub mod Defaults
pub mod Normal
use session_pressure.Common.{
  ℕ, ◌+◌, ◌-◌, ◌*◌, ◌/◌, min, max, Bool, true, false, not, ◌&&◌, ◌||◌, ltb, leb, ◌==◌,
  if◌then◌else◌, List, [], ◌∷◌, Option, none, some, first_error,
}
use session_pressure.Common.Int.{ℤ, pos, negsuc, pos_part}

-- A stable resource-cost class.
pub data WorkClass : Type 0 where
  test build express_test express_build install emulator browser heavy benchmark : WorkClass
  benchmark_exclusive reclaim : WorkClass

abbrev pub all_work_classes : List WorkClass
all_work_classes =
    express_test ∷ test ∷ express_build ∷ build ∷ install ∷ browser ∷ emulator ∷ heavy ∷ benchmark
    ∷ benchmark_exclusive ∷ reclaim ∷ []

abbrev pub is_express_class : WorkClass → Bool
is_express_class express_test = true
is_express_class express_build = true
is_express_class _ = false

-- The scheduling policy as it is written; `unset` is the empty text.
pub data SchedulingName : Type 0 where
  unset bounded_lookahead fifo other : SchedulingName

abbrev pub default_external_release_seconds : ℕ
default_external_release_seconds = 300

abbrev pub min_external_release_seconds : ℕ
min_external_release_seconds = 60

abbrev pub default_agent_share_percent : ℕ
default_agent_share_percent = 25

abbrev pub default_idle_park_seconds : ℕ
default_idle_park_seconds = 120

abbrev pub default_express_test_weight : ℕ
default_express_test_weight = 1

abbrev pub default_express_build_weight : ℕ
default_express_build_weight = 2

abbrev pub fast_lane_defaults_revision : ℕ
fast_lane_defaults_revision = 2

abbrev pub fast_lane_operator_revision : ℕ
fast_lane_operator_revision = 1_000_000

pub record WorkLimits : Type 0 where
  pub scheduling_policy : SchedulingName
  pub capacity : ℕ
  pub warning_capacity : ℕ
  pub warning_capacity_enabled : Bool
  pub swap_thrash_capacity : ℕ
  pub external_release_seconds : ℤ
  pub agent_share_percent : ℕ
  pub idle_park_seconds : ℤ
  pub test_weight : ℕ
  pub build_weight : ℕ
  pub express_test_weight : ℕ
  pub express_build_weight : ℕ
  pub emulator_weight : ℕ
  pub browser_weight : ℕ
  pub heavy_weight : ℕ
  pub benchmark_weight : ℕ
  pub install_weight : ℕ
  pub reclaim_weight : ℕ
  pub cpu_block_samples : ℕ
  pub cpu_release_samples : ℕ
  pub cpu_release_percent : ℕ
  pub fast_lane_enabled : Bool
  pub fast_lane_max_weight : ℕ
  pub fast_lane_max_runtime_ms : ℕ
  pub fast_lane_cpu_ceiling : ℕ
  pub fast_lane_revision : ℕ

-- The capacity and the weights that the defaults settle first, in the order of the source.
pub record Shares : Type 0 where
  pub share_capacity : ℕ
  pub share_test : ℕ
  pub share_build : ℕ
  pub share_express_test : ℕ
  pub share_express_build : ℕ
  pub share_benchmark : ℕ

unfoldable pub default_shares : ℕ → Shares
default_shares cpus =
    let capacity = max 2 (cpus - 2) in
    let express_test_w = min default_express_test_weight capacity in
    let express_build_w = min default_express_build_weight capacity in
    let test_w = max 1 ((capacity + 2) / 3) in
    let build_w = max 1 ((capacity + 2) / 2) in
    let test_w' = if leb test_w express_test_w then express_test_w + 1 else test_w in
    let build_w' = if leb build_w express_build_w then express_build_w + 1 else build_w in
    let capacity₁ = if ltb capacity test_w' then test_w' else capacity in
    let capacity₂ = if ltb capacity₁ build_w' then build_w' else capacity₁ in
    let benchmark_w = max 1 (capacity₂ - express_build_w) in
    let capacity₃ =
      if ltb capacity₂ (benchmark_w + express_test_w)
      then benchmark_w + express_test_w
      else capacity₂ in
    record {
      share_capacity = capacity₃;
      share_test = test_w';
      share_build = build_w';
      share_express_test = express_test_w;
      share_express_build = express_build_w;
      share_benchmark = benchmark_w;
    }

unfoldable pub limits_of_shares : Shares → WorkLimits
limits_of_shares s = record {
  scheduling_policy = bounded_lookahead;
  capacity = s.share_capacity;
  warning_capacity = max 1 (s.share_capacity / 2);
  warning_capacity_enabled = true;
  swap_thrash_capacity = min s.share_capacity s.share_build;
  external_release_seconds = pos default_external_release_seconds;
  agent_share_percent = default_agent_share_percent;
  idle_park_seconds = pos default_idle_park_seconds;
  test_weight = s.share_test;
  build_weight = s.share_build;
  express_test_weight = s.share_express_test;
  express_build_weight = s.share_express_build;
  emulator_weight = max 1 ((s.share_capacity * 5 + 7) / 8);
  browser_weight = max 1 ((s.share_capacity + 3) / 4);
  heavy_weight = max 1 ((s.share_capacity * 3 + 3) / 4);
  benchmark_weight = s.share_benchmark;
  install_weight = 1;
  reclaim_weight = 1;
  cpu_block_samples = 2;
  cpu_release_samples = 2;
  cpu_release_percent = 80_000;
  fast_lane_enabled = true;
  fast_lane_max_weight = max 1 (min s.share_express_build (s.share_capacity / 4));
  fast_lane_max_runtime_ms = 120_000;
  fast_lane_cpu_ceiling = 50_000;
  fast_lane_revision = fast_lane_defaults_revision;
}

unfoldable pub default_work_limits : ℕ → WorkLimits
unfolding limits_of_shares
default_work_limits cpus = limits_of_shares (default_shares cpus)

-- `field == 0` takes the default.
abbrev pub or_default : ℕ → ℕ → ℕ
or_default n d = if n == 0 then d else n

abbrev pub or_default_int : ℤ → ℕ → ℤ
or_default_int (pos n) d = pos (or_default n d)
or_default_int (negsuc n) d = negsuc n

abbrev pub or_default_name : SchedulingName → SchedulingName
or_default_name unset = bounded_lookahead
or_default_name name = name

-- The policy has no opinion on the fast lane.
abbrev pub is_unopinionated : WorkLimits → Bool
is_unopinionated l =
    l.fast_lane_max_weight == 0
    && l.fast_lane_max_runtime_ms == 0
    && l.fast_lane_cpu_ceiling == 0
    && not l.fast_lane_enabled

-- The bounds carry a shipped revision that is older than the current one.
abbrev pub is_stale : WorkLimits → WorkLimits → Bool
is_stale l d = ltb 0 l.fast_lane_revision && ltb l.fast_lane_revision d.fast_lane_revision

unfoldable pub reconcile_fast_lane_defaults : WorkLimits → WorkLimits → WorkLimits
reconcile_fast_lane_defaults l d =
    if is_unopinionated l
    then (record l {
      fast_lane_enabled = d.fast_lane_enabled;
      fast_lane_max_weight = d.fast_lane_max_weight;
      fast_lane_max_runtime_ms = d.fast_lane_max_runtime_ms;
      fast_lane_cpu_ceiling = d.fast_lane_cpu_ceiling;
      fast_lane_revision = d.fast_lane_revision;
    })
    else if is_stale l d
    then (record l {
      fast_lane_max_weight = d.fast_lane_max_weight;
      fast_lane_max_runtime_ms = d.fast_lane_max_runtime_ms;
      fast_lane_cpu_ceiling = d.fast_lane_cpu_ceiling;
      fast_lane_revision = d.fast_lane_revision;
    })
    else (record l {
      fast_lane_max_weight = or_default l.fast_lane_max_weight d.fast_lane_max_weight;
      fast_lane_max_runtime_ms = or_default l.fast_lane_max_runtime_ms d.fast_lane_max_runtime_ms;
      fast_lane_cpu_ceiling = or_default l.fast_lane_cpu_ceiling d.fast_lane_cpu_ceiling;
      fast_lane_revision = or_default l.fast_lane_revision fast_lane_operator_revision;
    })

-- The fields that a positive capacity fills in one by one. A later default reads earlier ones.
unfoldable pub fill_missing : WorkLimits → WorkLimits
fill_missing l =
    let build_w = or_default l.build_weight (max 1 ((l.capacity + 2) / 2)) in
    let express_build_w =
      or_default l.express_build_weight (min default_express_build_weight l.capacity) in
    record l {
      test_weight = or_default l.test_weight (max 1 ((l.capacity + 2) / 3));
      warning_capacity = or_default l.warning_capacity (max 1 (l.capacity / 2));
      build_weight = build_w;
      express_test_weight =
          or_default l.express_test_weight (min default_express_test_weight l.capacity);
      express_build_weight = express_build_w;
      benchmark_weight = or_default l.benchmark_weight (max 1 (l.capacity - express_build_w));
      scheduling_policy = or_default_name l.scheduling_policy;
      cpu_block_samples = or_default l.cpu_block_samples 2;
      cpu_release_samples = or_default l.cpu_release_samples 2;
      cpu_release_percent = or_default l.cpu_release_percent 80_000;
      install_weight = or_default l.install_weight 1;
      reclaim_weight = or_default l.reclaim_weight 1;
      swap_thrash_capacity = or_default l.swap_thrash_capacity (min l.capacity build_w);
      external_release_seconds =
          or_default_int l.external_release_seconds default_external_release_seconds;
      agent_share_percent = or_default l.agent_share_percent default_agent_share_percent;
      idle_park_seconds = or_default_int l.idle_park_seconds default_idle_park_seconds;
    }

unfoldable pub normalize_work_limits : ℕ → WorkLimits → WorkLimits
normalize_work_limits cpus l =
    if l.capacity == 0
    then default_work_limits cpus
    else reconcile_fast_lane_defaults (fill_missing l) (default_work_limits cpus)

-- The `switch` of `Weight`, on limits that are normalized.
abbrev pub weight_in : WorkLimits → WorkClass → ℕ
weight_in l test = l.test_weight
weight_in l build = l.build_weight
weight_in l express_test = l.express_test_weight
weight_in l express_build = l.express_build_weight
weight_in l emulator = l.emulator_weight
weight_in l browser = l.browser_weight
weight_in l heavy = l.heavy_weight
weight_in l benchmark = l.benchmark_weight
weight_in l benchmark_exclusive = l.capacity
weight_in l install = l.install_weight
weight_in l reclaim = l.reclaim_weight

unfoldable pub weight : ℕ → WorkLimits → WorkClass → ℕ
weight cpus l class = weight_in (normalize_work_limits cpus l) class
