-- ===== src/Tests/Queues.antt =====
-- The selectors and the operator's pins on small queues.
use session_pressure.Ledger.{waiter_operations, bypass_limit, is_exclusive}
use session_pressure.Ledger.Operations.{find_waiter}
use session_pressure.Ledger.Override.{advance_work_override, pinned}
use session_pressure.Common.{
  Any, ◌≡◌, some, none, true, ◌∷◌, false, [], refl, arith, take, Distinct, if◌then◌else◌, leb, ◌+◌,
  ◌&&◌, not,
}
use session_pressure.Ledger.Select.{
  work_waiter_protection, select_work_waiter, first_feasible, closed_window, select_protected,
  first_rider,
}
use session_pressure.Ledger.Select.Safety.{select_work_waiter-Fits, Names, Fits}
use session_pressure.Ledger.Select.Order.{
  protected_head_passed, select_work_waiter_oldest, first_that, admissible, rides_along,
}
use session_pressure.Ledger.Select.Safety.{Rides}
use session_pressure.Ledger.Override.Pins.{advance_pins_queued, Within}
use session_pressure.Tests.Data.{full_build, small_test, aged_build, open_window, three_waiting}

protects : work_waiter_protection aged_build 8 1_000_000_000 ≡ some bypass_limit
unfolding work_waiter_protection
protects = refl

-- A build holds the queue, and the test behind it fits.
picks :
    (select_work_waiter (full_build ∷ small_test ∷ []) 4 8 1_000_000_000 closed_window 0).selected
    ≡ some 12
unfolding select_work_waiter work_waiter_protection first_feasible
picks = refl

select_work_waiter-Fits_example :
    Any (λ w. Names 12 w × Fits 4 8 closed_window w) (full_build ∷ small_test ∷ [])
select_work_waiter-Fits_example =
    select_work_waiter-Fits (full_build ∷ small_test ∷ []) 4 8 1_000_000_000 closed_window 0 12
      (omega arith, (omega arith, tt)) picks

-- The build was bypassed four times; the test rides along its drain.
rides :
    (select_work_waiter (aged_build ∷ small_test ∷ []) 4 8 1_000_000_000 open_window 0).selected
    ≡ some 12
unfolding select_work_waiter work_waiter_protection select_protected first_rider
rides = refl

protected_head_passed_example :
    (open_window.active ≡ true)
    × (is_exclusive bypass_limit ≡ false)
    × Any (λ w. Names 12 w × Rides aged_build 4 8 0 w) (small_test ∷ [])
protected_head_passed_example =
    protected_head_passed aged_build (small_test ∷ []) 4 8 1_000_000_000 open_window 0 bypass_limit
      12 protects rides (λ e. (ground (arith, e)))

-- Behind a protected build that does not fit, an open window lets the test ride.
select_work_waiter_oldest_example :
    (select_work_waiter (aged_build ∷ small_test ∷ []) 4 8 1_000_000_000 open_window 0).selected
    ≡ elim (work_waiter_protection aged_build 8 1_000_000_000) [
      | none ↦ first_that (admissible 4 8 open_window) (take 64 (aged_build ∷ small_test ∷ []))
      | some reason ↦
          if leb (4 + aged_build.weight) 8
          then some aged_build.operation_id
          else if open_window.active && not (is_exclusive reason)
          then first_that (rides_along aged_build 4 8 0) (take 63 (small_test ∷ []))
          else none
    ]
select_work_waiter_oldest_example =
    select_work_waiter_oldest aged_build (small_test ∷ []) 4 8 1_000_000_000 open_window 0
      (omega arith, (omega arith, tt))

-- Three waiting, with a pin for one of them, for one that is gone and for the first again.
advance_pins_queued_example :
    let s' = (advance_work_override three_waiting 7).0 in
    Within (waiter_operations s'.waiters) (pinned s') × Distinct (pinned s')
advance_pins_queued_example = advance_pins_queued three_waiting 7

finds : find_waiter 12 three_waiting.waiters ≡ some small_test
unfolding find_waiter
finds = refl
