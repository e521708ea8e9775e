-- ===== src/Tests/Ledgers.antt =====
-- The ledger's mutations on a state with one lease and two waiters, and the shared latch.
use session_pressure.Limits.{is_express_class}
use session_pressure.Ledger.Select.{closed_window}
use session_pressure.Ledger.Latching.{Observation, fresh_latch, observe_latch}
use mathlib.Core.List.{Perm}
use session_pressure.Ledger.Operations.{cancel, try_acquire, acquire, ok}
use session_pressure.Ledger.{WorkState, Latch, Lease}
use session_pressure.Common.{arith, ◌≡◌, false, true, some, refl, List, ℕ, none, ◌∷◌, []}
use session_pressure.Ledger.Runs.Kept.{Run-Sound}
use session_pressure.Ledger.Runs.{
  Run, done, then_step, attempts, cancels, Sound, acquires, AllAcquireNew,
}
use session_pressure.Ledger.Conservation.{operations, try_acquire-perm}
use session_pressure.Ledger.Latching.Counting.{watch, reds_latch}
use session_pressure.Tests.Data.{a_caller, two_waiting, empty_state, held_lease, new_lease}

sound : Sound two_waiting
sound = ((refl, (refl, (refl, tt))), (omega arith, (omega arith, tt)))

-- A newcomer is refused behind the queue, the queued test takes its lease, then the build gives up.
abbrev newcomer : Lease
newcomer = record held_lease { operation_id = 77 }

abbrev after_newcomer : WorkState
after_newcomer = (acquire a_caller 8 closed_window newcomer two_waiting).0

abbrev after_attempt : WorkState
after_attempt = (try_acquire a_caller 8 closed_window new_lease after_newcomer).0

unfoldable three_steps : Run two_waiting (cancel 11 2_000_000_000 after_attempt)
three_steps =
    then_step two_waiting after_attempt (cancel 11 2_000_000_000 after_attempt)
      (then_step two_waiting after_newcomer after_attempt
        (then_step two_waiting two_waiting after_newcomer (done two_waiting)
          (acquires a_caller 8 closed_window newcomer two_waiting))
        (attempts a_caller 8 closed_window new_lease after_newcomer))
      (cancels 11 2_000_000_000 after_attempt)

acquires_new : AllAcquireNew two_waiting (cancel 11 2_000_000_000 after_attempt) three_steps
unfolding three_steps
acquires_new = (((tt, refl), tt), tt)

Run-Sound_example : Sound (cancel 11 2_000_000_000 after_attempt)
Run-Sound_example =
    Run-Sound two_waiting (cancel 11 2_000_000_000 after_attempt) three_steps acquires_new sound

try_acquire-perm_example :
    Perm
      (operations (try_acquire a_caller 8 closed_window new_lease two_waiting).0)
      (operations two_waiting)
try_acquire-perm_example = try_acquire-perm a_caller 8 closed_window new_lease two_waiting

admitted : (acquire a_caller 8 closed_window held_lease empty_state).1 ≡ ok tt
unfolding acquire session_pressure.Limits.normalize_work_limits
    session_pressure.Limits.default_work_limits session_pressure.Limits.default_shares
    session_pressure.Limits.reconcile_fast_lane_defaults session_pressure.Limits.fill_missing
admitted = refl

abbrev red_cpu : Observation
red_cpu = record { red = true; recovered = false; dimension = "cpu"; reason = "cpu red" }

-- Three samples of two kinds, two seconds apart and then two minutes.
abbrev red_memory : Observation
red_memory = record red_cpu { dimension = "memory"; reason = "" }

abbrev spaced_reds : List (ℕ × Observation)
spaced_reds = (2_000_000_000, red_memory) ∷ (120_000_000_000, red_cpu) ∷ []

reds_latch_example :
    let l = watch 3 2 spaced_reds 100 (observe_latch 3 2 red_cpu 100 none) in
    (l.latched ≡ true) × (l.red_samples ≡ 3) × (l.observed_at ≡ some 122_000_000_100)
reds_latch_example =
    reds_latch 3 2 100 red_cpu spaced_reds refl
      ((refl, omega arith, omega arith), ((refl, omega arith, omega arith), tt))

-- One red sample is counted.
abbrev once_red : Latch
once_red = record fresh_latch { red_samples = 1; observed_at = some 100 }
