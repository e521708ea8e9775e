-- ===== src/SwapThrash.antt =====
-- The resident swap-thrash latch: two hot samples enter an episode, two calm ones end it, and an
-- episode that outlives small leased work is not charged to the agents.
-- sessionpressure/swap_io.go. Rates and sizes are numbers of thousandths.
pub mod Advance
pub mod Episodes
pub mod Verdict
use session_pressure.Common.Int.{pos_part}
use session_pressure.Common.{
  ℕ, Bool, false, if◌then◌else◌, ltb, Option, ◌-◌, true, leb, not, ◌*◌, ◌&&◌, ◌==◌, ◌+◌, ◌||◌, some,
  none,
}
use session_pressure.Limits.{WorkLimits, normalize_work_limits}
use session_pressure.Ledger.{milliseconds}

abbrev pub enter_samples : ℕ
enter_samples = 2

abbrev pub release_samples : ℕ
release_samples = 2

abbrev pub resume_max_age : ℕ
resume_max_age = milliseconds 180_000

-- Why the latch holds; `no_cause` is the empty text.
pub data Cause : Type 0 where
  no_cause agents unattributed external : Cause

pub data TransitionState : Type 0 where
  entered derate_released derate_resumed released : TransitionState

-- A signed span of time, as what was added and what was taken off.
pub record Span : Type 0 where
  pub plus : ℕ
  pub minus : ℕ

abbrev pub no_span : Span
no_span = record { plus = 0; minus = 0 }

-- `max(0, span)`.
abbrev pub span_length : Span → ℕ
span_length t = t.plus - t.minus

pub record ThrashLatch : Type 0 where
  pub latched : Bool
  pub hot : ℕ
  pub calm : ℕ
  pub since : ℕ
  pub quiet_since : ℕ
  pub proven : Bool
  pub is_external : Bool
  pub external_since : ℕ
  pub external_total : Span
  pub cause : Cause
  pub last_external_release : ℕ
  pub resumed : Bool

abbrev pub no_latch : ThrashLatch
no_latch = record {
  latched = false;
  hot = 0;
  calm = 0;
  since = 0;
  quiet_since = 0;
  proven = false;
  is_external = false;
  external_since = 0;
  external_total = no_span;
  cause = no_cause;
  last_external_release = 0;
  resumed = false;
}

-- What the latch reads of a snapshot.
pub record Sample : Type 0 where
  pub timestamp : ℕ
  pub swap_io_available : Bool
  pub swap_out : ℕ
  pub swap_used : ℕ
  pub physical_memory : ℕ
  pub work_available : Bool
  pub work_rss : ℕ
  pub work_leases : ℕ

-- What the latch writes to a snapshot.
pub record Published : Type 0 where
  pub swap_thrash_latched : Bool
  pub swap_thrash_cause : Cause
  pub swap_thrash_since : ℕ

pub record Thresholds : Type 0 where
  pub thrash : ℕ
  pub release : ℕ

pub record Transition : Type 0 where
  pub state : TransitionState
  pub resumed : Bool
  pub cause : Cause
  pub since : ℕ
  pub episode : ℕ
  pub external_time : ℕ
  pub swap_out : ℕ
  pub swap_used : ℕ
  pub coordinated_rss : ℕ
  pub coordinated_leases : ℕ
  pub agent_share : ℕ

-- The latched episode of a predecessor, from its last snapshot, unless that is too old or lies more
-- than five seconds ahead.
unfoldable pub resume : Bool → Published → ℕ → ℕ → ThrashLatch → ThrashLatch
resume available latest timestamp now latch =
    if not available || not latest.swap_thrash_latched
    then latch
    else if ltb (now + milliseconds 5_000) timestamp || ltb (timestamp + resume_max_age) now
    then latch
    else let l : ThrashLatch = record no_latch {
      latched = true;
      hot = enter_samples;
      since = if latest.swap_thrash_since == 0 then timestamp else latest.swap_thrash_since;
      cause = latest.swap_thrash_cause;
      resumed = true;
    } in
      if is_external_cause latest.swap_thrash_cause
      then (record l { proven = true; is_external = true; external_since = timestamp })
      else l
  where
    is_external_cause : Cause → Bool
    is_external_cause external = true
    is_external_cause _ = false

-- The run lengths after a rate.
unfoldable pub count_rate : Thresholds → ℕ → ThrashLatch → ThrashLatch
count_rate t rate l =
    if leb t.thrash rate
    then (record l { hot = l.hot + 1; calm = 0 })
    else if leb rate t.release
    then (record l { hot = 0; calm = l.calm + 1 })
    else (record l { hot = 0; calm = 0 })

-- The verdict after the run lengths.
unfoldable pub settle : ThrashLatch → ThrashLatch
settle l =
    let entered = if not l.latched && leb enter_samples l.hot then true else l.latched in
    record l { latched = entered && not (leb release_samples l.calm) }

-- The hysteretic latch. Without counters, or without a threshold, it is reset.
unfoldable pub observe : ThrashLatch → Sample → Thresholds → ThrashLatch
unfolding count_rate settle
observe l s t =
    if not s.swap_io_available || t.thrash == 0
    then no_latch
    else settle (count_rate t s.swap_out l)
