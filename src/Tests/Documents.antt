-- ===== src/Tests/Documents.antt =====
-- The state file: written, read, reconciled, and changed by whole accesses.
use session_pressure.Ledger.Reconcile.Identities.{reconcile-Move}
use session_pressure.Ledger.Runs.Phases.{Move, phase}
use session_pressure.Limits.Checks.{validate_limits}
use session_pressure.Limits.{
  express_test, normalize_work_limits, reconcile_fast_lane_defaults, fill_missing,
  default_work_limits, default_shares, weight,
}
use session_pressure.Ledger.Runs.Kept.{Step-Sound}
use session_pressure.Ledger.Select.{
  closed_window, materialize_work_protections, work_waiter_protection,
}
use session_pressure.Ledger.Override.{
  work_override_positions, advance_work_override, advance_to, live_pins,
}
use session_pressure.Ledger.Runs.{Sound, cancels, releases}
use session_pressure.Ledger.Operations.{
  ◌>>=◌, Caller, prepare, cancel, Result, ok, err, effective_capacity, full_capacity,
  valid_private_id, beat, new_lease_record, check_caller, identity_for_pid, accept_identity,
  acquire, release,
}
use session_pressure.Ledger.{WorkState, lease_operations, used_weight, waiter_operations}
use session_pressure.Common.{
  true, false, ◌≡◌, All, contains, some, [], Any, if◌then◌else◌, ◌⊎◌, inl, refl, arith, ◌≤◌, none,
  leb, ◌+◌, sort_by, insert_by,
}
use session_pressure.Ledger.Document.{Document, read, write}
use session_pressure.Ledger.Document.Roundtrip.{read-write-Survives, Both, Survives}
use session_pressure.Ledger.Reconcile.{Reconciled, reconcile}
use session_pressure.Ledger.Reconcile.Soundness.{reconcile-Sound}
use session_pressure.Ledger.Reconcile.Owners.{reconcile-Owned, reconcile_keeps_live, Owned, Queued}
use session_pressure.Ledger.Reconcile.Premature.{reconcile-StaleMark, StaleMark}
use session_pressure.Ledger.Transaction.{with_state, acquire_operation}
use session_pressure.Ledger.Transaction.Soundness.{
  with_state-SoundDocument, acquire_operation_charges, SoundDocument,
}
use session_pressure.Tests.Data.{a_host, busy, a_caller, two_waiting}

abbrev nothing_done : Reconciled
nothing_done = record { state = busy; pruned_leases = 0; pruned_waiters = 0; changed = false }

abbrev reconciled : Reconciled
reconciled = elim (reconcile a_caller a_host busy) [ ok r ↦ r | err e ↦ nothing_done ]

accepted : reconcile a_caller a_host busy ≡ ok reconciled
unfolding reconcile valid_private_id
accepted = refl

-- A lease whose recorded owner is another process is dropped.
reused : (reconcile a_caller a_host two_waiting >>= λ r. ok r.pruned_leases) ≡ ok 1
unfolding reconcile valid_private_id
reused = refl

reconcile-Sound_example : Sound reconciled.state
reconcile-Sound_example = reconcile-Sound a_caller a_host busy reconciled accepted

reconcile-Move_example : Move (phase reconciled.state) (phase (release 50 reconciled.state))
reconcile-Move_example =
    reconcile-Move a_caller a_host busy (release 50 reconciled.state) reconciled
      (releases 50 reconciled.state) accepted tt

reconcile-Owned_example :
    All (Owned a_caller a_host) reconciled.state.leases
    × All (Queued a_caller a_host) reconciled.state.waiters
reconcile-Owned_example = reconcile-Owned a_caller a_host busy reconciled accepted

reconcile_keeps_live_example :
    (contains 10 (lease_operations reconciled.state.leases) ≡ true)
    ⊎ (contains 10 (waiter_operations reconciled.state.waiters) ≡ true)
reconcile_keeps_live_example =
    reconcile_keeps_live a_caller a_host busy reconciled 10 accepted
      (inl (inl (refl, (refl, refl))))

-- A build that filled the capacity of its day was promised the drain; then the capacity is raised.
abbrev small_caller : Caller
small_caller = record a_caller { limits = record a_caller.limits { capacity = 5 } }

abbrev promised : WorkState
promised = prepare small_caller 11 two_waiting

stale : Any (StaleMark a_caller) promised.waiters
unfolding prepare materialize_work_protections beat work_waiter_protection normalize_work_limits
    reconcile_fast_lane_defaults fill_missing default_work_limits default_shares weight
stale = inl (refl, refl, refl, omega arith, omega arith, refl)

reconcile-StaleMark_example : ¬ (reconcile a_caller a_host promised ≡ ok reconciled)
reconcile-StaleMark_example = reconcile-StaleMark a_caller a_host promised reconciled stale

-- The same state at schema 5.
abbrev older : WorkState
older = record busy { schema_version = 5 }

read-write-Survives_example :
    (t : WorkState) × (read (some (write older)) ≡ ok t)
    × Both Survives older.leases t.leases
    × (used_weight older.leases ≤ used_weight t.leases)
    × (waiter_operations t.waiters
        ≡ (if leb 3 older.schema_version then waiter_operations older.waiters else []))
read-write-Survives_example = read-write-Survives older

abbrev read_again : WorkState
read_again = elim (read (some (write older))) [ ok t ↦ t | err e ↦ older ]

read-older : read (some (write older)) ≡ ok read_again
unfolding read write
read-older = refl

-- An express test is admitted at once where nothing runs.
admitted : (acquire_operation a_caller a_host true 8 closed_window express_test 12 none).1 ≡ ok tt
unfolding acquire_operation new_lease_record identity_for_pid accept_identity acquire
    valid_private_id check_caller validate_limits normalize_work_limits default_work_limits
    default_shares reconcile_fast_lane_defaults fill_missing with_state read write reconcile
    advance_work_override advance_to work_override_positions live_pins sort_by insert_by weight
admitted = refl

acquire_operation_charges_example :
    (doc : Document) × ((acquire_operation a_caller a_host true 8 closed_window express_test 12
        none).0
      ≡ some doc)
    × (contains 12 (lease_operations doc.leases) ≡ true)
    × ((used_weight doc.leases ≤ effective_capacity a_caller 8)
        ⊎ ((false ≡ true)
            × (effective_capacity a_caller 8 ≡ full_capacity a_caller)
            × (used_weight doc.leases ≤ full_capacity a_caller + 0)))
acquire_operation_charges_example =
    acquire_operation_charges a_caller a_host true 8 closed_window express_test 12 none admitted

-- Giving up a queue place, as a whole access.
abbrev give_up : WorkState → WorkState × Result (Unit {0})
give_up s = (cancel 12 2_000_000_000 s, ok tt)

gave_up : (with_state a_caller a_host true (some (write busy)) give_up).1 ≡ ok tt
unfolding valid_private_id check_caller validate_limits normalize_work_limits default_work_limits
    default_shares reconcile_fast_lane_defaults fill_missing with_state read write reconcile
    advance_work_override advance_to work_override_positions live_pins sort_by insert_by cancel
gave_up = refl

give_up-schema : (s : WorkState) → (give_up s).0.schema_version ≡ s.schema_version
unfolding cancel advance_work_override advance_to
give_up-schema s = ground arith

with_state-SoundDocument_example :
    (doc : Document) × ((with_state a_caller a_host true (some (write busy)) give_up).0 ≡ some doc)
    × SoundDocument doc
with_state-SoundDocument_example =
    with_state-SoundDocument a_caller a_host true (some (write busy)) give_up tt
      (λ s sound. Step-Sound s (cancel 12 2_000_000_000 s) (cancels 12 2_000_000_000 s) tt sound)
      give_up-schema gave_up
