-- ===== src/Pressure.antt =====
-- The levels of host pressure and the admission of agent launches: evaluate, EvaluateStorage and the
-- levels of sessionpressure/types.go, AgentLaunchAdmissionForQueue of sessionpressure/admission.go,
-- softLaunchNoiseSuppressed of sessionpressure/doctor.go.
--
-- Percentages, sizes and rates are numbers of thousandths; the texts of reasons are left out, and a
-- reason is told by its kind. The budget of the guard itself is left out.
pub mod Launching
pub mod Storage
pub mod Levels
use session_pressure.Common.{
  ℕ, Bool, List, Option, none, some, [], ◌∷◌, true, false, ◌++◌, ◌&&◌, ◌||◌, not, leb, ltb, ◌==◌,
  if◌then◌else◌, sort_by,
}
use session_pressure.Gate.{Level, normal, warning, red, critical}

abbrev pub level_rank : Level → ℕ
level_rank normal = 0
level_rank warning = 1
level_rank red = 2
level_rank critical = 3

abbrev pub max_level : Level → Level → Level
max_level a b = if ltb (level_rank a) (level_rank b) then b else a

abbrev pub at_least : Level → Level → Bool
at_least level want = leb (level_rank want) (level_rank level)

pub record PressureThresholds : Type 0 where
  pub host_cpu_warning : ℕ
  pub host_cpu_red : ℕ
  pub free_warning : ℕ
  pub free_red : ℕ
  pub free_critical : ℕ
  pub swap_warning : ℕ
  pub swap_red : ℕ
  pub swap_critical : ℕ
  pub swap_out_warning : ℕ
  pub swap_out_thrash : ℕ
  pub tree_warning : ℕ
  pub tree_red : ℕ
  pub tree_critical : ℕ
  pub agent_total_warning : ℕ
  pub agent_total_red : ℕ
  pub agent_total_critical : ℕ

-- What evaluate reads of a snapshot; the top tree is the size of the largest agent tree.
pub record HostSample : Type 0 where
  pub free_percent : ℕ
  pub agent_rss : ℕ
  pub top_tree : Option ℕ
  pub swap_used : ℕ
  pub swap_io_available : Bool
  pub swap_out : ℕ
  pub swap_thrash_latched : Bool
  pub host_cpu_available : Bool
  pub host_cpu_percent : ℕ

pub data BreachKind : Type 0 where
  free_memory agent_memory tree_memory swap_space swap_thrash swap_latched swap_rate : BreachKind
  host_cpu : BreachKind

pub record Breach : Type 0 where
  pub kind : BreachKind
  pub level : Level

abbrev pub breach : BreachKind → Level → List Breach
breach k l = record { kind = k; level = l } ∷ []

abbrev pub free_breach : HostSample → PressureThresholds → List Breach
free_breach s t =
    if leb s.free_percent t.free_critical
    then breach free_memory critical
    else if leb s.free_percent t.free_red
    then breach free_memory red
    else if leb s.free_percent t.free_warning
    then breach free_memory warning
    else []

abbrev pub agent_breach : HostSample → PressureThresholds → List Breach
agent_breach s t =
    if leb t.agent_total_critical s.agent_rss
    then breach agent_memory critical
    else if leb t.agent_total_red s.agent_rss
    then breach agent_memory red
    else if leb t.agent_total_warning s.agent_rss
    then breach agent_memory warning
    else []

abbrev pub tree_breach : Option ℕ → PressureThresholds → List Breach
tree_breach none t = []
tree_breach (some size) t =
    if leb t.tree_critical size
    then breach tree_memory critical
    else if leb t.tree_red size
    then breach tree_memory red
    else if leb t.tree_warning size
    then breach tree_memory warning
    else []

abbrev pub worst : List Breach → Level
worst [] = normal
worst (b ∷ bs) = max_level b.level (worst bs)

-- Swap in use corroborates a live memory breach; it is no signal of its own.
abbrev pub swap_breach : Level → HostSample → PressureThresholds → List Breach
swap_breach live s t =
    if leb t.swap_critical s.swap_used && at_least live red
    then breach swap_space critical
    else if leb t.swap_red s.swap_used && at_least live warning
    then breach swap_space red
    else if leb t.swap_warning s.swap_used && at_least live warning
    then breach swap_space warning
    else []

abbrev pub swap_out_breach : HostSample → PressureThresholds → List Breach
swap_out_breach s t =
    if not s.swap_io_available
    then []
    else if ltb 0 t.swap_out_thrash && leb t.swap_out_thrash s.swap_out
    then breach swap_thrash warning
    else if s.swap_thrash_latched
    then breach swap_latched warning
    else if ltb 0 t.swap_out_warning && leb t.swap_out_warning s.swap_out
    then breach swap_rate warning
    else []

abbrev pub cpu_known : HostSample → Bool
cpu_known s = s.host_cpu_available || ltb 0 s.host_cpu_percent

abbrev pub cpu_breach : HostSample → PressureThresholds → List Breach
cpu_breach s t =
    if cpu_known s && leb t.host_cpu_red s.host_cpu_percent
    then breach host_cpu red
    else if cpu_known s && leb t.host_cpu_warning s.host_cpu_percent
    then breach host_cpu warning
    else []

-- The live memory signals, without the swap space.
unfoldable pub live_breaches : HostSample → PressureThresholds → List Breach
live_breaches s t = free_breach s t ++ agent_breach s t ++ tree_breach s.top_tree t

unfoldable pub memory_breaches : HostSample → PressureThresholds → List Breach
unfolding live_breaches
memory_breaches s t = let live = live_breaches s t in live ++ swap_breach (worst live) s t

unfoldable pub throughput_breaches : HostSample → PressureThresholds → List Breach
throughput_breaches s t = swap_out_breach s t ++ cpu_breach s t

unfoldable pub breaches : HostSample → PressureThresholds → Bool → List Breach
unfolding memory_breaches throughput_breaches
breaches s t include_cpu =
    let memory = memory_breaches s t in
    if include_cpu then memory ++ throughput_breaches s t else memory

pub record Evaluation : Type 0 where
  pub level : Level
  pub reasons : List Breach

abbrev pub graver : Breach → Breach → Bool
graver a b = ltb (level_rank b.level) (level_rank a.level)

unfoldable pub evaluate : HostSample → PressureThresholds → Bool → Evaluation
unfolding breaches
evaluate s t include_cpu =
    let found = breaches s t include_cpu in
    record { level = worst found; reasons = sort_by graver found }

-- Storage.
pub record StoragePolicy : Type 0 where
  pub enabled : Bool
  pub warning_free : ℕ
  pub red_free : ℕ
  pub critical_free : ℕ
  pub warning_release : ℕ
  pub red_release : ℕ
  pub critical_release : ℕ

pub record StorageVerdict : Type 0 where
  pub level : Level
  pub instantaneous : Level
  pub hysteresis_active : Bool
  pub release : ℕ

abbrev pub storage_now : StoragePolicy → ℕ → Level
storage_now p free =
    if ltb free p.critical_free
    then critical
    else if ltb free p.red_free
    then red
    else if ltb free p.warning_free
    then warning
    else normal

abbrev pub release_of : StoragePolicy → Level → ℕ
release_of p critical = p.critical_release
release_of p red = p.red_release
release_of p warning = p.warning_release
release_of p normal = 0

-- A band that was entered is held until its own release.
abbrev pub is_held : StoragePolicy → ℕ → Level → Bool
is_held p free previous = ltb free (release_of p previous)

abbrev pub storage_level : StoragePolicy → ℕ → Level → Level
storage_level p free previous =
    if is_held p free previous then max_level (storage_now p free) previous else storage_now p free

abbrev pub clear_storage : StorageVerdict
clear_storage = record {
  level = normal;
  instantaneous = normal;
  hysteresis_active = false;
  release = 0;
}

abbrev pub storage_verdict : StoragePolicy → ℕ → Level → StorageVerdict
storage_verdict p free previous = record {
  level = storage_level p free previous;
  instantaneous = storage_now p free;
  hysteresis_active =
      ltb (level_rank (storage_now p free)) (level_rank (storage_level p free previous));
  release = if is_held p free previous then release_of p previous else 0;
}

-- `none` is a volume that could not be read.
unfoldable pub evaluate_storage : StoragePolicy → Option ℕ → Level → StorageVerdict
evaluate_storage p none previous = clear_storage
evaluate_storage p (some free) previous =
    if not p.enabled then clear_storage else storage_verdict p free previous

-- Launches of agents.
pub data LaunchKind : Type 0 where
  launch_new launch_resume : LaunchKind

pub record LaunchPolicy : Type 0 where
  pub enforce_admission : Bool
  pub queue_depth_block : ℕ
  pub oldest_wait_block_ms : ℕ
  pub resume_warns : Bool

-- What the launch reads of the ledger: the waits of the waiters, oldest first.
pub record QueueStatus : Type 0 where
  pub queue_depth : ℕ
  pub waits : List ℕ

pub data LaunchWarning : Type 0 where
  would_block_observed launch_allowed resume_allowed : LaunchWarning

pub record Launch : Type 0 where
  pub allowed : Bool
  pub level : Level
  pub queue_limited : Bool  -- the dimension is the work queue
  pub warning_added : Option LaunchWarning
  pub would_block : Bool  -- in the evidence on the queue

abbrev pub oldest_wait : List ℕ → ℕ
oldest_wait [] = 0
oldest_wait (w ∷ ws) = w

abbrev pub is_normal : Level → Bool
is_normal normal = true
is_normal _ = false

abbrev pub noise_suppressed : Level → ℕ → Bool → Bool
noise_suppressed level depth raw = raw && is_normal level && depth == 0

abbrev pub raw_would_block : LaunchPolicy → QueueStatus → Bool
raw_would_block p q =
    leb p.queue_depth_block q.queue_depth || leb p.oldest_wait_block_ms (oldest_wait q.waits)

abbrev pub queue_would_block : Launch → LaunchPolicy → QueueStatus → Bool
queue_would_block host p q =
    raw_would_block p q && not (noise_suppressed host.level q.queue_depth (raw_would_block p q))

abbrev pub resume_passes : LaunchKind → LaunchPolicy → Bool
resume_passes launch_new p = false
resume_passes launch_resume p = p.resume_warns

unfoldable pub launch_for_queue : Launch → LaunchPolicy → QueueStatus → LaunchKind → Launch
launch_for_queue host p q kind =
    let blocks = queue_would_block host p q in
    let seen : Launch = record host { would_block = blocks } in
    let limited : Launch = record seen { queue_limited = true } in
    if not blocks
    then seen
    else if not p.enforce_admission
    then (record limited {
      level = if is_normal host.level then host.level else max_level host.level red;
      warning_added = some would_block_observed;
    })
    else if host.allowed && not (at_least host.level red)
    then (record limited { warning_added = some launch_allowed })
    else if resume_passes kind p
    then (record limited { level = max_level host.level red; warning_added = some resume_allowed })
    else (record limited { level = max_level host.level red; allowed = false })
