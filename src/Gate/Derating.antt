-- ===== src/Gate/Derating.antt =====
-- Whom the two derates hold, sessionpressure/workderating.go.
use session_pressure.Limits.{WorkClass, weight, normalize_work_limits}
use session_pressure.Common.{
  Bool, ◌≡◌, some, if◌then◌else◌, ◌-◌, ◌&&◌, not, ltb, ◌+◌, arith, Bool-cases, leb, true, inr, inl,
  false, ◌⊎◌, refl, ◌<◌, ◌≤◌, is_some, none, ◌==◌, ◌↔◌,
}
use session_pressure.Gate.{
  Gate, Admission, Snapshot, Status, swap_thrash_decision, thrash_episode, thrash_verdict,
  warning_capacity_decision, warning_verdict, falls_through, defers, admits, swap,
  is_external_cause, is_latched, warning_pressure_dimension, Dimension, uncorroborated_cpu_red,
  critical, warning, red, Level, stands_before_red, normal, is_cpu, cpu, memory,
}

-- The last part, by what is under lease beside the operation.
thrash_verdict_lem :
    (g : Gate) (owns : Bool) (class : WorkClass) (status : Status)
    → let w = weight g.cpus g.limits class in
      (thrash_verdict g owns class status).1 ≡ (
        if ltb 0 (if owns then status.used - w else status.used)
          && ltb
              (normalize_work_limits g.cpus g.limits).swap_thrash_capacity
              (if owns then status.used else status.used + w)
        then defers swap
        else falls_through)
unfolding thrash_verdict
thrash_verdict_lem g true class status = ground arith
thrash_verdict_lem g false class status = ground arith

thrash_episode_lem :
    (g : Gate) (owns : Bool) (class : WorkClass) (snap : Snapshot) (status : Status)
    → let w = weight g.cpus g.limits class in
      (thrash_episode g owns class snap (some status)).1 ≡ (
        if (snap.swap_io_available && snap.swap_thrash_latched)
          && not (is_external_cause snap.swap_thrash_cause)
          && ltb 0 (if owns then status.used - w else status.used)
          && ltb
              (normalize_work_limits g.cpus g.limits).swap_thrash_capacity
              (if owns then status.used else status.used + w)
        then defers swap
        else falls_through)
unfolding thrash_episode
thrash_episode_lem g owns class snap status =
    elim (Bool-cases (snap.swap_io_available && snap.swap_thrash_latched)) [
      | inr e ↦ rw e refl
      | inl e ↦ elim (Bool-cases (is_external_cause snap.swap_thrash_cause)) [
        | inl e' ↦ rw (e, e') refl
        | inr e' ↦ rw (e, e') (thrash_verdict_lem g owns class status)
      ]
    ]

-- The swap derate holds an operation only under an enforcing profile, during a latched episode that
-- is not laid to demand from outside, when other work is under lease beside it and the operation does
-- not fit the capacity for thrashing; what it does not hold, the rest of the gate decides.
pub swap_thrash_decision_defers :
    (g : Gate) (a : Admission) (owns : Bool) (class : WorkClass) (snap : Snapshot) (status : Status)
    → g.class ≡ some class
    → a.snapshot ≡ some snap
    → g.warning_capacity_status ≡ some (some status)
    → let w = weight g.cpus g.limits class in
      let others = if owns then status.used - w else status.used in
      let limit = (normalize_work_limits g.cpus g.limits).swap_thrash_capacity in
      ((swap_thrash_decision g a owns).1 ≡ (
        if (g.swap_thrash_enforced && a.allowed)
          && (snap.swap_io_available && snap.swap_thrash_latched)
          && not (is_external_cause snap.swap_thrash_cause)
          && ltb 0 others
          && ltb limit (if owns then status.used else status.used + w)
        then defers swap
        else falls_through))
unfolding swap_thrash_decision thrash_episode thrash_verdict
swap_thrash_decision_defers g a owns class snap status known seen counted =
    elim (Bool-cases (g.swap_thrash_enforced && a.allowed)) [
      | inl e ↦
          rw (known, swap_thrash_decision, seen, counted, e)
            (thrash_episode_lem g owns class snap status)
      | inr e ↦ rw (known, swap_thrash_decision, seen, counted, e) refl
    ]

-- The levels and dimensions for which work is derated.
abbrev pub is_derated : Level → Dimension → Bool
is_derated warning cpu = true
is_derated warning memory = true
is_derated _ _ = false

warning_pressure_dimension_lem :
    (a : Admission)
    → warning_pressure_dimension a
      ≡ (if is_some a.snapshot && is_derated a.level a.dimension then some a.dimension else none)
unfolding warning_pressure_dimension
warning_pressure_dimension_lem a = ground arith

warning_verdict_lem :
    (g : Gate) (owns : Bool) (class : WorkClass) (dim : Dimension) (status : Status)
    → (warning_verdict g owns class dim status).1 ≡ (
        if is_latched status.admission_latch
        then falls_through
        else if leb
            (if owns then status.used else status.used + weight g.cpus g.limits class)
            (normalize_work_limits g.cpus g.limits).warning_capacity
        then admits dim
        else defers dim)
unfolding warning_verdict
warning_verdict_lem g owns class dim status = ground arith

-- With the operation's class and the use of the ledger known, the warning derate decides only on a
-- host at level warning, with a snapshot, under CPU or memory pressure, when the profile derates for it
-- and neither the gate nor the shared CPU latch is latched: then it admits the operation exactly when
-- the use, the operation counted once, stays within the warning capacity, and else holds it. What it
-- does not decide, the rest of the gate does.
pub warning_capacity_decision_admits :
    (g : Gate) (a : Admission) (owns : Bool) (class : WorkClass) (status : Status)
    → g.class ≡ some class
    → g.warning_capacity_status ≡ some (some status)
    → let demand = if owns then status.used else status.used + weight g.cpus g.limits class in
      let limits = normalize_work_limits g.cpus g.limits in
      ((warning_capacity_decision g a owns).1 ≡ (
        if (is_some a.snapshot && is_derated a.level a.dimension)
          && limits.warning_capacity_enabled
          && not g.latched
          && not (is_latched status.admission_latch)
        then (if leb demand limits.warning_capacity then admits a.dimension else defers a.dimension)
        else falls_through))
unfolding warning_capacity_decision
warning_capacity_decision_admits g a owns class status known counted =
    let dim = warning_pressure_dimension_lem a in
    let verdict = warning_verdict_lem g owns class a.dimension status in
    elim (Bool-cases (normalize_work_limits g.cpus g.limits).warning_capacity_enabled) [
      | inr e ↦ rw (known, warning_capacity_decision, e) (ground arith)
      | inl e ↦ elim (Bool-cases (is_some a.snapshot && is_derated a.level a.dimension)) [
        | inr e' ↦ rw (known, warning_capacity_decision, e, dim, e') refl
        | inl e' ↦ elim (Bool-cases g.latched) [
          | inl e'' ↦ rw (known, warning_capacity_decision, e, dim, e', e'') refl
          | inr e'' ↦
              rw (known, warning_capacity_decision, e, dim, e', e'', counted, verdict)
                (elim (Bool-cases (is_latched status.admission_latch)) [
                  | inl l ↦ rw l refl
                  | inr l ↦ rw l refl
                ])
        ]
      ]
    ]

-- The levels that the test takes for red.
abbrev pub is_warning_or_red : Level → Bool
is_warning_or_red warning = true
is_warning_or_red red = true
is_warning_or_red _ = false

-- Of the four texts, "warning" and "red" alone do not stand before "red".
stands_before_red_lem : (l : Level) → stands_before_red l ≡ not (is_warning_or_red l)
stands_before_red_lem normal = refl
stands_before_red_lem warning = refl
stands_before_red_lem red = refl
stands_before_red_lem critical = refl

-- With a snapshot, a reading counts as an uncorroborated spike of CPU exactly when the admission is
-- allowed at level warning or red, and so never at critical, its dimension is CPU, the sample is known
-- and at the red percentage or above, 95 where none is set, no rolling mean is known to be there too,
-- and the samples in a row are fewer than two or fewer than the policy's block samples.
pub uncorroborated_cpu_red_levels :
    (g : Gate) (a : Admission) (snap : Snapshot)
    → a.snapshot ≡ some snap
    → let percent = if g.cpu_red_percent == 0 then 95_000 else g.cpu_red_percent in
      ((uncorroborated_cpu_red g a ≡ true)
        ↔ (a.allowed ≡ true)
          × (is_warning_or_red a.level ≡ true)
          × (is_cpu a.dimension ≡ true)
          × (snap.host_cpu_available ≡ true)
          × (percent ≤ snap.host_cpu_percent)
          × ((snap.host_cpu_rolling_available ≡ false) ⊎ (snap.host_cpu_rolling_percent < percent))
          × ((snap.consecutive_samples < 2)
              ⊎ (snap.consecutive_samples < g.limits.cpu_block_samples)))
unfolding uncorroborated_cpu_red
uncorroborated_cpu_red_levels g a snap seen =
    let before = stands_before_red_lem a.level in
    rw (before, seen) (λ h. ground arith, λ h. ground arith)
