-- ===== src/Gate.antt =====
-- Two verdicts that lower the ceiling for new work, and the test of an uncorroborated CPU spike, of
-- the admission gate: sessionpressure/workderating.go and sessionpressure/workrun.go. The texts of
-- reasons are left out.
use session_pressure.Common.{
  Bool, ℕ, Option, true, if◌then◌else◌, false, none, ◌+◌, leb, not, ◌&&◌, some, ◌==◌, ◌||◌, is_some,
  ltb, max,
}
pub mod Derating
use session_pressure.Limits.{WorkClass, WorkLimits, weight, normalize_work_limits}
use Prim.Native.String.{String, compare}
use text.Mathlib.Text.{is_lt}
use session_pressure.Ledger.{Latch}
use session_pressure.SwapThrash.{Cause, no_cause, agents, unattributed, external}

pub data Level : Type 0 where
  normal warning red critical : Level

pub data Dimension : Type 0 where
  no_dimension cpu memory storage swap unknown_dimension : Dimension

-- What the gate reads of a snapshot; percentages are numbers of thousandths.
pub record Snapshot : Type 0 where
  pub swap_io_available : Bool
  pub swap_thrash_latched : Bool
  pub swap_thrash_cause : Cause
  pub host_cpu_available : Bool
  pub host_cpu_percent : ℕ
  pub host_cpu_rolling_available : Bool
  pub host_cpu_rolling_percent : ℕ
  pub consecutive_samples : ℕ

pub record Admission : Type 0 where
  pub allowed : Bool
  pub level : Level
  pub dimension : Dimension
  pub snapshot : Option Snapshot

-- What the gate reads of the coordinator's status.
pub record Status : Type 0 where
  pub used : ℕ
  pub admission_latch : Option Latch

-- The part of a gate that these verdicts read and write. `none` for the class is the empty class; the
-- status is a function that may be absent, and its answer may be unknown.
pub record Gate : Type 0 where
  pub cpus : ℕ
  pub limits : WorkLimits
  pub class : Option WorkClass
  pub latched : Bool
  pub cpu_red_percent : ℕ
  pub warning_capacity_status : Option (Option Status)
  pub swap_thrash_enforced : Bool
  pub swap_thrash_admitted : Bool
  pub swap_thrash_deferred : Bool
  pub swap_thrash_external : Bool
  pub warning_capacity_admitted : Bool
  pub warning_capacity_deferred : Bool

-- A verdict that falls through leaves the decision to the rest of the gate.
pub data Verdict : Type 0 where
  falls_through : Verdict
  admits defers : Dimension → Verdict

abbrev pub is_external_cause : Cause → Bool
is_external_cause external = true
is_external_cause _ = false

-- The use with this operation, and whether it is the only one. After its acquisition the status
-- counts the operation already.
abbrev pub projected_use : Bool → ℕ → ℕ → ℕ
projected_use owns used w = if owns then used else used + w

abbrev pub is_alone : Bool → ℕ → ℕ → Bool
is_alone owns used w = if owns then leb used w else used == 0

-- The last part of swapThrashDecision.
unfoldable pub thrash_verdict : Gate → Bool → WorkClass → Status → Gate × Verdict
thrash_verdict g owns class status =
    let w = weight g.cpus g.limits class in
    if leb (projected_use owns status.used w)
        (normalize_work_limits g.cpus g.limits).swap_thrash_capacity
      || is_alone owns status.used w
    then (record g { swap_thrash_admitted = true }, falls_through)
    else (record g { swap_thrash_deferred = true }, defers swap)

-- The rest of it, for a snapshot of a latched episode.
unfoldable pub thrash_episode : Gate → Bool → WorkClass → Snapshot → Option Status → Gate × Verdict
unfolding thrash_verdict
thrash_episode g owns class snap status =
    if not (snap.swap_io_available && snap.swap_thrash_latched)
    then (g, falls_through)
    else if is_external_cause snap.swap_thrash_cause
    then (record g { swap_thrash_external = true }, falls_through)
    else elim status [ none ↦ (g, falls_through) | some known ↦ thrash_verdict g owns class known ]

-- swapThrashDecision.
unfoldable pub swap_thrash_decision : Gate → Admission → Bool → Gate × Verdict
unfolding thrash_episode
swap_thrash_decision g a owns =
    if not (g.swap_thrash_enforced && a.allowed) then (g, falls_through) else elim g.class [
      | none ↦ (g, falls_through)
      | some class ↦ elim a.snapshot [
        | none ↦ (g, falls_through)
        | some snap ↦ elim g.warning_capacity_status [
          | none ↦ (g, falls_through)
          | some status ↦ thrash_episode g owns class snap status
        ]
      ]
    ]

abbrev pub is_warning : Level → Bool
is_warning warning = true
is_warning _ = false

-- Storage keeps its own policy.
unfoldable pub warning_pressure_dimension : Admission → Option Dimension
warning_pressure_dimension a =
    if is_warning a.level && is_some a.snapshot
    then elim a.dimension [ cpu ↦ some cpu | memory ↦ some memory | _ ↦ none ]
    else none

abbrev pub is_latched : Option Latch → Bool
is_latched none = false
is_latched (some l) = l.latched

-- The last part of warningCapacityDecision.
unfoldable pub warning_verdict : Gate → Bool → WorkClass → Dimension → Status → Gate × Verdict
warning_verdict g owns class dim status =
    let w = weight g.cpus g.limits class in
    if is_latched status.admission_latch
    then (g, falls_through)
    else if leb (projected_use owns status.used w)
        (normalize_work_limits g.cpus g.limits).warning_capacity
    then (record g { warning_capacity_admitted = true }, admits dim)
    else (record g { warning_capacity_deferred = true }, defers dim)

-- warningCapacityDecision.
unfoldable pub warning_capacity_decision : Gate → Admission → Bool → Gate × Verdict
unfolding warning_verdict warning_pressure_dimension
warning_capacity_decision g a owns = elim g.class [
  | none ↦ (g, falls_through)
  | some class ↦
      if not (normalize_work_limits g.cpus g.limits).warning_capacity_enabled
      then (g, falls_through)
      else elim (warning_pressure_dimension a) [
        | none ↦ (g, falls_through)
        | some dim ↦ if g.latched then (g, falls_through) else elim g.warning_capacity_status [
          | none ↦ (g, falls_through)
          | some answer ↦ elim answer [
            | none ↦ (g, falls_through)
            | some status ↦ warning_verdict g owns class dim status
          ]
        ]
      ]
]

unfoldable pub warning_effective_capacity : ℕ → Admission → WorkLimits → ℕ
unfolding warning_pressure_dimension
warning_effective_capacity cpus a l =
    let n = normalize_work_limits cpus l in
    if n.warning_capacity_enabled && is_some (warning_pressure_dimension a)
    then n.warning_capacity
    else n.capacity

-- The texts of the levels. The test below compares them as texts, byte by byte.
abbrev pub level_text : Level → String
level_text normal = "normal"
level_text warning = "warning"
level_text red = "red"
level_text critical = "critical"

abbrev pub stands_before_red : Level → Bool
stands_before_red l = is_lt (compare (level_text l) (level_text red))

abbrev pub is_cpu : Dimension → Bool
is_cpu cpu = true
is_cpu _ = false

-- uncorroboratedCPURed.
unfoldable pub uncorroborated_cpu_red : Gate → Admission → Bool
uncorroborated_cpu_red g a =
    if not a.allowed || stands_before_red a.level || not (is_cpu a.dimension)
    then false
    else elim a.snapshot [
      | none ↦ false
      | some snap ↦
          let red_percent = if g.cpu_red_percent == 0 then 95_000 else g.cpu_red_percent in
          if not snap.host_cpu_available || ltb snap.host_cpu_percent red_percent
          then false
          else not
              (snap.host_cpu_rolling_available && leb red_percent snap.host_cpu_rolling_percent)
            && ltb snap.consecutive_samples (max 2 g.limits.cpu_block_samples)
    ]
