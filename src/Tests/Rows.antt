-- ===== src/Tests/Rows.antt =====
-- Histories of audit rows, and the theorems on life cycles at them.
use session_pressure.Events.Corrections.{normalize_terminals_twice}
use session_pressure.Events.Regular.{validate_lifecycle-History}
use session_pressure.Events.Independence.{rows_of, partition_lifecycle_independent}
use session_pressure.Common.Int.{pos}
use session_pressure.Limits.{build}
use session_pressure.Ledger.Operations.{valid_private_id}
use session_pressure.Events.Stages.{Stage, History, at_start}
use session_pressure.Events.Lifecycle.{add, is_late_terminal, follow}
use session_pressure.Events.Readers.{
  validate_lifecycle, partition_lifecycle, normalize_terminals, add_all, partition_from,
  recovered_from, recovered_operations, has_failed, skipped_events,
}
use session_pressure.Common.{
  List, none, ◌∷◌, ℕ, some, ◌≡◌, length, is_some, [], refl, keep_if, not, false,
}
use session_pressure.Events.{
  WorkEvent, check_event, acquired, expired, completed, event_checks, queued, dead_lease_owner,
  reserved, override_requested, no_blocker, reacquired, no_dimension, other_outcome, no_decision,
  no_refusal, other_note,
}

abbrev pub row : WorkEvent
row = record {
  schema_version = 4;
  event_id = 1;
  request_id = none;
  timestamp = 1_000;
  event = queued;
  operation_id = 5;
  lease_id = none;
  class = build;
  requested_class = none;
  weight = pos 2;
  pid = pos 77;
  session_digest = none;
  command_digest = some 9;
  blocker = no_blocker;
  queue_position = pos 0;
  queue_depth = pos 0;
  capacity = pos 8;
  used = pos 0;
  available = pos 8;
  wait_ms = pos 0;
  admission_wait_ms = pos 0;
  queue_wait_ms = pos 0;
  pressure_wait_ms = pos 0;
  prestart_ms = pos 0;
  runtime_ms = pos 0;
  pressure_dimension = no_dimension;
  coordinated_attribution_available = false;
  coordinated_cpu_available = false;
  coordinated_cpu_percent = pos 0;
  coordinated_lease_count = pos 0;
  coordinated_process_count = pos 0;
  coordinated_inventory_age = pos 0;
  exit_code = none;
  outcome = other_outcome;
  bypassed_count = pos 0;
  batch_step_count = pos 0;
  batch_completed_steps = pos 0;
  reuse_decision = no_decision;
  reuse_refusal_reason = no_refusal;
  reuse_key_digest = none;
  receipt_digest = none;
  singleflight_wait_ms = pos 0;
  admission_decision = other_note;
  queue_host_cpu_available = false;
  queue_host_cpu_percent = pos 0;
  queue_coordinated_cpu_available = false;
  queue_coordinated_cpu_percent = pos 0;
  queue_coordinated_inventory_age = pos 0;
  command_cpu_available = false;
  command_cpu_ms = pos 0;
  command_peak_rss = pos 0;
  lease_reserved_cores = pos 0;
}

abbrev acquired_row : WorkEvent
acquired_row = record row { event = acquired; lease_id = some 50; timestamp = 2_000 }

abbrev lost_row : WorkEvent
lost_row = record acquired_row { event = expired; outcome = dead_lease_owner; timestamp = 5_000 }

abbrev late_row : WorkEvent
late_row = record acquired_row { event = completed; exit_code = some (pos 0); timestamp = 6_000 }

-- A lease that the reconciler gave up shortly before the outcome was written.
abbrev late_rows : List WorkEvent
late_rows =
    row
    ∷ acquired_row
    ∷ record acquired_row { event = reserved }
    ∷ record row { event = override_requested }
    ∷ record row { operation_id = 6 }
    ∷ record acquired_row { event = reacquired; lease_id = some 51 }
    ∷ record lost_row { lease_id = some 51 }
    ∷ record late_row { lease_id = some 51 }
    ∷ []

-- The second operation is acquired twice.
abbrev mixed_rows : List WorkEvent
mixed_rows =
    record acquired_row { operation_id = 6 } ∷ record acquired_row { operation_id = 6 } ∷ late_rows

first_row_passes : check_event row ≡ none
unfolding check_event event_checks valid_private_id
first_row_passes = refl

late_rows_pass : validate_lifecycle late_rows ≡ none
unfolding validate_lifecycle add_all add follow is_late_terminal
late_rows_pass = refl

mixed_rows_skip : skipped_events mixed_rows ≡ 3
unfolding partition_lifecycle partition_from add follow is_late_terminal
mixed_rows_skip = refl

late_rows_shrink : length (normalize_terminals late_rows).0 ≡ 7
unfolding normalize_terminals recovered_from is_late_terminal
late_rows_shrink = refl

validate_lifecycle-History_example : (b : Stage) × History at_start (rows_of 5 late_rows) b
validate_lifecycle-History_example = validate_lifecycle-History late_rows 5 late_rows_pass

partition_lifecycle_independent_example :
    let fs = partition_lifecycle mixed_rows in
    ((op : ℕ) → has_failed op fs ≡ is_some (validate_lifecycle (rows_of op mixed_rows)))
    × (is_some (validate_lifecycle (keep_if (λ e. not (has_failed e.operation_id fs)) mixed_rows))
        ≡ false)
partition_lifecycle_independent_example = partition_lifecycle_independent mixed_rows

normalize_terminals_twice_example :
    let kept = (normalize_terminals late_rows).0 in
    (recovered_operations kept ≡ []) × (normalize_terminals kept ≡ (kept, 0))
normalize_terminals_twice_example = normalize_terminals_twice late_rows
