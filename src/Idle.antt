-- ===== src/Idle.antt =====
-- Parking of idle leases: workIdleDetector and one round of workIdleParking of
-- sessionpressure/workidle.go. Rates are compared across their denominators; the clock of a process
-- does not go back.
use session_pressure.Common.{
  Bool, ℕ, false, true, if◌then◌else◌, leb, ltb, ◌-◌, Option, ◌+◌, ◌*◌, not, some, ◌&&◌, ◌||◌, ◌==◌,
  none,
}
pub mod Charge
pub mod Verdict
use session_pressure.Limits.{WorkClass, test, express_test, build, express_build, heavy}
use session_pressure.Ledger.{WorkState}
use session_pressure.Ledger.Ownership.{park_lease}
use session_pressure.Ledger.Operations.{Result, ok, err}

-- Classes whose weight is about the CPU of their own process group.
unfoldable pub idle_park_eligible : WorkClass → Bool
idle_park_eligible test = true
idle_park_eligible express_test = true
idle_park_eligible build = true
idle_park_eligible express_build = true
idle_park_eligible heavy = true
idle_park_eligible _ = false

-- Cumulative readings of a process group.
pub record Activity : Type 0 where
  pub cpu_ns : ℕ
  pub pageins : ℕ

pub record Detector : Type 0 where
  pub idle_after : ℕ
  pub last : Activity
  pub last_at : ℕ
  pub have_last : Bool
  pub idle_since : ℕ
  pub parked : Bool
  pub parked_at : ℕ
  pub parked_total : ℕ
  pub park_count : ℕ

pub data Turn : Type 0 where
  no_turn parks wakes : Turn

unfoldable pub set_parked : ℕ → Bool → Detector → Detector × Turn
set_parked now true d =
    if d.parked
    then (d, no_turn)
    else (record d { parked = true; parked_at = now; park_count = d.park_count + 1 }, parks)
set_parked now false d =
    if d.parked
    then (
      record d {
        parked = false;
        parked_total = d.parked_total + (now - d.parked_at);
        parked_at = 0;
      },
      wakes,
    )
    else (d, no_turn)

-- At least 5% of one core, or 64 page-ins a second.
unfoldable pub is_working : ℕ → ℕ → ℕ → Bool
is_working cpu pageins elapsed =
    leb (5 * elapsed) (100 * cpu) || leb (64 * elapsed) (1_000_000_000 * pageins)

-- More than 1% of one core, or 4 page-ins a second.
unfoldable pub is_light : ℕ → ℕ → ℕ → Bool
is_light cpu pageins elapsed =
    ltb elapsed (100 * cpu) || ltb (4 * elapsed) (1_000_000_000 * pageins)

-- A reading against the one before it; a counter that fell is no activity.
unfoldable pub judge : ℕ → ℕ → Activity → Detector → Detector × Turn
unfolding set_parked is_working is_light
judge now elapsed sample d =
    let cpu = sample.cpu_ns - d.last.cpu_ns in
    let pageins = sample.pageins - d.last.pageins in
    let d₁ = record d { last = sample; last_at = now } in
    if is_working cpu pageins elapsed
    then set_parked now false (record d₁ { idle_since = now })
    else if is_light cpu pageins elapsed
    then (if d.parked then d₁ else record d₁ { idle_since = now }, no_turn)
    else if not d.parked && leb (d.idle_since + d.idle_after) now
    then set_parked now true d₁
    else (d₁, no_turn)

-- `none` is a reading that failed.
unfoldable pub observe_activity : ℕ → Option Activity → Detector → Detector × Turn
unfolding set_parked judge
observe_activity now none d = set_parked now false (record d { have_last = false; idle_since = 0 })
observe_activity now (some sample) d =
    if not d.have_last
    then (
      record d {
        last = sample;
        last_at = now;
        have_last = true;
        idle_since = if d.idle_since == 0 then now else d.idle_since;
      },
      no_turn,
    )
    else if leb now d.last_at
    then (d, no_turn)
    else judge now (now - d.last_at) sample d

-- A turn whose durable write failed is undone.
unfoldable pub revert : Turn → Detector → Detector
revert no_turn d = d
revert parks d = record d { parked = false; parked_at = 0; park_count = d.park_count - 1 }
revert wakes d = record d { parked = true; parked_at = d.last_at }

unfoldable pub totals : ℕ → Detector → ℕ × ℕ
totals now d =
    (if d.parked then d.parked_total + (now - d.parked_at) else d.parked_total, d.park_count)

abbrev pub is_ok {ℓ} : {A : Type ℓ} → Result A → Bool
is_ok (ok a) = true
is_ok (err e) = false

-- The durable part of a turn; `reaches` says whether the ledger can be locked, read and written.
unfoldable pub settle_turn : ℕ → ℕ → Bool → WorkState → Detector × Turn → Detector × WorkState
unfolding revert
settle_turn id now reaches s (d, no_turn) = (d, s)
settle_turn id now reaches s (d, parks) =
    let (s', result) = park_lease id true now s in
    if reaches && is_ok result then (d, s') else (revert parks d, s)
settle_turn id now reaches s (d, wakes) =
    let (s', result) = park_lease id false now s in
    if reaches && is_ok result then (d, s') else (revert wakes d, s)

-- One round of workIdleParking.run for the lease with an identity.
unfoldable pub watch : ℕ → ℕ → Bool → Option Activity → Detector → WorkState → Detector × WorkState
unfolding observe_activity settle_turn
watch id now reaches sample d s = settle_turn id now reaches s (observe_activity now sample d)
