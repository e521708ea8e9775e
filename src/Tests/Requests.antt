-- ===== src/Tests/Requests.antt =====
-- Requests for priority, on the state and in the file.
use session_pressure.Limits.Checks.{validate_limits}
use session_pressure.Limits.{
  normalize_work_limits, reconcile_fast_lane_defaults, fill_missing, default_work_limits,
  default_shares,
}
use session_pressure.Ledger.Override.{
  work_override_positions, advance_work_override, advance_to, persisted_work_state_schema,
  live_pins,
}
use session_pressure.Ledger.Operations.{
  Result, ok, err, valid_private_id, check_caller, find_waiter,
}
use session_pressure.Ledger.{WorkState}
use session_pressure.Common.{
  true, ◌≡◌, contains, some, ℕ, List, ◌∷◌, [], Bool, if◌then◌else◌, ◌++◌, refl, sort_by, insert_by,
}
use session_pressure.Ledger.Document.{Document, read, write}
use session_pressure.Ledger.Reconcile.{reconcile}
use session_pressure.Ledger.Transaction.{with_state}
use session_pressure.Ledger.Requests.{
  override_operations, prioritize_waiter, override_all_waiters, Promotion,
}
use session_pressure.Ledger.Requests.Priority.{prioritize_waiter_pins}
use session_pressure.Ledger.Requests.Durable.{override_waiters_durable, pinned_in}
use session_pressure.Tests.Data.{a_host, busy, a_caller}

-- Every intent is recorded.
abbrev every_audit : ℕ → Bool
every_audit op = true

abbrev granted : Result (List Promotion) → List Promotion
granted (ok ps) = ps
granted (err e) = []

abbrev swapped : List Promotion
swapped = granted (override_operations a_caller every_audit (12 ∷ 11 ∷ []) busy).1

swap_granted : (override_operations a_caller every_audit (12 ∷ 11 ∷ []) busy).1 ≡ ok swapped
unfolding override_operations valid_private_id find_waiter persisted_work_state_schema
    work_override_positions live_pins
swap_granted = refl

abbrev pinned_test : WorkState
pinned_test = record busy { override_operation = some 12 }

abbrev behind : List Promotion
behind = granted (prioritize_waiter a_caller every_audit 11 pinned_test).1

behind_granted : (prioritize_waiter a_caller every_audit 11 pinned_test).1 ≡ ok behind
unfolding prioritize_waiter valid_private_id find_waiter persisted_work_state_schema
    work_override_positions live_pins
behind_granted = refl

prioritize_waiter_pins_example :
    let s' = (prioritize_waiter a_caller every_audit 11 pinned_test).0 in
    let before = work_override_positions pinned_test in
    (work_override_positions s' ≡ (if contains 11 before then before else before ++ 11 ∷ []))
    × (s'.waiters ≡ pinned_test.waiters)
    × (s'.leases ≡ pinned_test.leases)
prioritize_waiter_pins_example =
    prioritize_waiter_pins a_caller every_audit 11 pinned_test behind behind_granted

abbrev everyone : List Promotion
everyone = granted (override_all_waiters a_caller every_audit busy).1

all_granted : (override_all_waiters a_caller every_audit busy).1 ≡ ok everyone
unfolding override_all_waiters valid_private_id find_waiter persisted_work_state_schema
    work_override_positions live_pins
all_granted = refl

abbrev written_down : List Promotion
written_down =
    granted
      (with_state a_caller a_host true (some (write busy))
        (override_operations a_caller every_audit (12 ∷ 11 ∷ []))).1

durable :
    (with_state a_caller a_host true
      (some (write busy))
      (override_operations a_caller every_audit (12 ∷ 11 ∷ []))).1
    ≡ ok written_down
unfolding override_operations find_waiter persisted_work_state_schema valid_private_id check_caller
    validate_limits normalize_work_limits default_work_limits default_shares
    reconcile_fast_lane_defaults fill_missing with_state read write reconcile advance_work_override
    advance_to work_override_positions live_pins sort_by insert_by
durable = refl

override_waiters_durable_example :
    (doc : Document) × ((with_state a_caller a_host true
        (some (write busy))
        (override_operations a_caller every_audit (12 ∷ 11 ∷ []))).0
      ≡ some doc)
    × (pinned_in doc ≡ 12 ∷ 11 ∷ [])
override_waiters_durable_example =
    override_waiters_durable a_caller a_host true (some (write busy)) every_audit (12 ∷ 11 ∷ [])
      written_down (refl, (refl, tt)) durable
