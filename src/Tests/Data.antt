-- ===== src/Tests/Data.antt =====
-- The waiters, leases and states that the tests share.
use session_pressure.Ledger.Reconcile.{Host}
use session_pressure.Common.{some, true, none, [], ◌∷◌, false}
use session_pressure.Ledger.Operations.{Caller}
use session_pressure.Ledger.Select.{GreenWindow, bounded}
use session_pressure.Ledger.{OriginStamp, Waiter, Lease, WorkState, unreserved, no_selection}
use session_pressure.Limits.{build, test, express_test, default_work_limits}

abbrev no_stamp : OriginStamp
no_stamp = record { kind = ""; schedule_id = ""; schedule_run_id = ""; agent_kind = "" }

abbrev pub full_build : Waiter
full_build = record {
  operation_id = 11;
  class = build;
  weight = 5;
  pid = 100;
  owner_identity = 7;
  queued_at = 1_000;
  heartbeat_at = 1_000;
  origin = no_stamp;
  bypass_count = 1;
  last_bypassed_at = some 900_000_000;
  protected_at = none;
  reservation_kind = unreserved;
  reserved_at = none;
}

-- The same build after the last bypass that is allowed.
abbrev pub aged_build : Waiter
aged_build = record full_build { bypass_count = 4; protected_at = some 950_000_000 }

abbrev pub small_test : Waiter
small_test = record full_build {
  operation_id = 12;
  class = express_test;
  weight = 1;
  pid = 101;
  queued_at = 2_000;
  heartbeat_at = 2_000;
  bypass_count = 0;
  last_bypassed_at = none;
}

abbrev pub open_window : GreenWindow
open_window = record { active = true; overcommit = 2 }

abbrev pub held_lease : Lease
held_lease = record {
  id = 50;
  operation_id = 10;
  class = test;
  weight = 4;
  pid = 99;
  owner_identity = 6;
  supervisor_pid = 99;
  supervisor_identity = 6;
  queued_at = 500;
  started_at = 600;
  origin = no_stamp;
  parked_at = none;
}

abbrev pub new_lease : Lease
new_lease = record held_lease { id = 51; operation_id = 12; class = express_test; weight = 1 }

abbrev pub empty_state : WorkState
empty_state = record {
  schema_version = 8;
  leases = [];
  waiters = [];
  override_operation = none;
  override_requested_at = none;
  override_queue = [];
  admission_holds = [];
  admission_latch = none;
  pruned_admission_holds = 0;
  migrated = false;
  legacy_active = false;
  last_selection = no_selection;
  last_shadow_selection = no_selection;
}

abbrev pub two_waiting : WorkState
two_waiting = record empty_state {
  leases = held_lease ∷ [];
  waiters = full_build ∷ small_test ∷ [];
}

abbrev pub three_waiting : WorkState
three_waiting = record two_waiting {
  override_operation = some 12;
  override_queue = 99 ∷ 11 ∷ 12 ∷ [];
}

abbrev pub a_caller : Caller
a_caller = record {
  cpus = 10;
  limits = default_work_limits 10;
  policy = bounded;
  pid = 101;
  now = 1_000_000_000;
  stamp = no_stamp;
  identity = λ pid. some 7;
  fresh_id = 51;
}

abbrev pub a_host : Host
a_host = record { alive = λ pid. true; still_alive = λ pid. true; records = λ op. true }

-- A lease whose owner lives, in front of the two waiters.
abbrev pub busy : WorkState
busy = record two_waiting {
  leases = record held_lease { owner_identity = 7; supervisor_identity = 7 } ∷ [];
}
