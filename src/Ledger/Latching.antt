-- ===== src/Ledger/Latching.antt =====
-- The shared CPU latch: ObserveAdmissionLatch of sessionpressure/workadmissionhold.go.
pub mod Counting
use session_pressure.Common.{
  ℕ, Bool, false, Option, if◌then◌else◌, none, some, not, max, ltb, true, ◌&&◌, ◌+◌, leb,
}
use text.Mathlib.Text.{◌==◌ as str_eq}
use Prim.Native.String.{String}
use session_pressure.Ledger.{Latch, WorkState, milliseconds}

abbrev pub latch_sample_interval : ℕ
latch_sample_interval = milliseconds 1_500

abbrev pub latch_stale : ℕ
latch_stale = milliseconds 120_000

pub record Observation : Type 0 where
  pub red : Bool
  pub recovered : Bool
  pub dimension : String
  pub reason : String

abbrev pub fresh_latch : Latch
fresh_latch = record {
  latched = false;
  latched_at = none;
  dimension = "";
  reason = "";
  red_samples = 0;
  recovery_samples = 0;
  block_required = 0;
  release_required = 0;
  observed_at = none;
}

-- A latch that nobody has polled for too long is forgotten.
unfoldable pub current_latch : Option Latch → ℕ → Latch
current_latch none now = fresh_latch
current_latch (some l) now = elim l.observed_at [
  | none ↦ l
  | some at ↦ if ltb (at + latch_stale) now then fresh_latch else l
]

-- Whether an observation counts: the first, and each that is an interval after the last counted.
unfoldable pub is_counted : Latch → ℕ → Bool
is_counted l now = elim l.observed_at [
  | none ↦ true
  | some at ↦ leb (at + latch_sample_interval) now
]

-- The counters after a counted observation.
unfoldable pub count_observation : ℕ → ℕ → Observation → ℕ → Latch → Latch
count_observation block release o now l =
    if o.red
    then if not l.latched && leb block (l.red_samples + 1)
      then (record l {
        recovery_samples = 0;
        red_samples = l.red_samples + 1;
        latched = true;
        latched_at = some now;
      })
      else (record l { recovery_samples = 0; red_samples = l.red_samples + 1 })
    else if o.recovered
    then if l.latched && leb release (l.recovery_samples + 1)
      then (record l { red_samples = 0; recovery_samples = 0; latched = false; latched_at = none })
      else (record l { red_samples = 0; recovery_samples = l.recovery_samples + 1 })
    else (record l { recovery_samples = 0 })

abbrev or_kept : String → String → String
or_kept new old = if str_eq new "" then old else new

-- The latch with an observation counted, if it counts.
unfoldable pub sample : ℕ → ℕ → Observation → ℕ → Latch → Latch
unfolding count_observation is_counted
sample block release o now l =
    if is_counted l now
    then record (count_observation block release o now l) { observed_at = some now }
    else l

-- The latch after one observation; the bounds are those of the policy, at least 1.
unfoldable pub observe_latch : ℕ → ℕ → Observation → ℕ → Option Latch → Latch
unfolding current_latch sample
observe_latch block_samples release_samples o now old =
    let block = max 1 block_samples in
    let release = max 1 release_samples in
    let l = sample block release o now (current_latch old now) in
    record l {
      dimension = or_kept o.dimension l.dimension;
      reason = or_kept o.reason l.reason;
      block_required = block;
      release_required = release;
    }
