-- ===== src/Ledger/Ownership.antt =====
-- The state changes of a lease that is held, and of the admission holds: SetParked, BindPID,
-- ReserveForPressure and DropLease of sessionpressure/worklease.go, HoldAdmission and
-- ReleaseAdmission of sessionpressure/workadmissionhold.go.
use session_pressure.Ledger.Override.{schema_current, is_legacy_pinned}
use session_pressure.Limits.{WorkClass, weight}
use session_pressure.Common.{
  ℕ, Bool, List, ltb, Option, none, if◌then◌else◌, ◌∷◌, some, ◌==◌, true, not, map, [], ◌&&◌,
  is_some, contains, keep_if, ◌++◌,
}
use Prim.Native.String.{String}
use session_pressure.Ledger.{Waiter, WorkState, Lease, Hold, pressure, lease_operations}
use session_pressure.Ledger.Operations.{
  Result, Caller, err, reservation_minimum_schema, lease_missing, lease_disappeared,
  upgrade_pending, valid_private_id, park_schema_pinned, ok, operation_changed, invalid_id,
  invalid_identity, sort_waiters, nothing_dropped, audit_failed,
}

-- The first lease with an identity is changed.
unfoldable pub update_lease : ℕ → (Lease → Lease) → List Lease → List Lease
update_lease id f [] = []
update_lease id f (l ∷ ls) =
    let rest = update_lease id f ls in if l.id == id then f l ∷ ls else l ∷ rest

unfoldable pub find_lease : ℕ → List Lease → Option Lease
find_lease id [] = none
find_lease id (l ∷ ls) = let rest = find_lease id ls in if l.id == id then some l else rest

-- The document stays below the current schema while a legacy cohort lives.
abbrev pub is_park_pinned : WorkState → Bool
is_park_pinned s = ltb s.schema_version schema_current && is_legacy_pinned s

abbrev pub park_stamp : Bool → ℕ → Lease → Lease
park_stamp parked at l = record l {
  parked_at = if parked then elim l.parked_at [ none ↦ some at | some old ↦ some old ] else none;
}

-- parkWorkLeaseRecord; the result is the time that the lease is parked since.
unfoldable pub park_lease : ℕ → Bool → ℕ → WorkState → WorkState × Result (Option ℕ)
park_lease id parked at s = elim (find_lease id s.leases) [
  | none ↦ (s, err lease_missing)
  | some l ↦ if parked && is_park_pinned s then (s, err park_schema_pinned) else (
    record s { leases = update_lease id (park_stamp parked at) s.leases },
    ok (park_stamp parked at l).parked_at,
  )
]

-- The mutation of BindPID: the child takes over the crash recovery of the lease.
unfoldable pub bind_pid : ℕ → ℕ → ℕ → WorkState → WorkState × Result (Unit {0})
bind_pid id pid owner s = elim (find_lease id s.leases) [
  | none ↦ (s, err lease_disappeared)
  | some l ↦ (
    record s {
      leases = update_lease id (λ l. record l { pid = pid; owner_identity = owner }) s.leases;
    },
    ok tt,
  )
]

-- The waiter that a lease becomes; the time of queueing is kept.
unfoldable pub pressure_waiter : Caller → ℕ → Lease → Waiter
pressure_waiter c owner l = record {
  operation_id = l.operation_id;
  class = l.class;
  weight = l.weight;
  pid = c.pid;
  owner_identity = owner;
  queued_at = if l.queued_at == 0 then l.started_at else l.queued_at;
  heartbeat_at = c.now;
  origin = record { kind = ""; schedule_id = ""; schedule_run_id = ""; agent_kind = "" };
  bypass_count = 0;
  last_bypassed_at = none;
  protected_at = some c.now;
  reservation_kind = pressure;
  reserved_at = some c.now;
}

-- Every lease with the identity belongs to the operation.
unfoldable pub all_belong : ℕ → ℕ → List Lease → Bool
all_belong id op [] = true
all_belong id op (l ∷ ls) =
    let rest = all_belong id op ls in if l.id == id then l.operation_id == op && rest else rest

-- The mutation of ReserveForPressure, for the lease `own` that its caller holds.
unfoldable pub reserve_for_pressure : Caller → ℕ → Lease → WorkState → WorkState × Result (Unit {0})
unfolding all_belong
reserve_for_pressure c owner own s =
    if ltb s.schema_version reservation_minimum_schema
    then (s, err upgrade_pending)
    else if not (all_belong own.id own.operation_id s.leases)
    then (s, err operation_changed)
    else if not (is_some (find_lease own.id s.leases))
    then (s, err lease_disappeared)
    else (
      record s {
        leases = keep_if (λ l. not (l.id == own.id)) s.leases;
        waiters = sort_waiters (s.waiters ++ pressure_waiter c owner own ∷ []);
      },
      ok tt,
    )

-- The mutation of DropLease. `audited` says whether the cancellation of an operation is recorded;
-- a refused record leaves the leases as they are.
unfoldable pub drop_lease : (ℕ → Bool) → ℕ → WorkState → WorkState × Result (Unit {0})
drop_lease audited op s =
    if not (valid_private_id op)
    then (s, err invalid_id)
    else if not (contains op (lease_operations s.leases))
    then (s, err nothing_dropped)
    else if not (audited op)
    then (s, err audit_failed)
    else (record s { leases = keep_if (λ l. not (l.operation_id == op)) s.leases }, ok tt)

-- What a poll reports of its wait.
pub record Notice : Type 0 where
  pub dimension : String
  pub reason : String

unfoldable pub refresh_hold : ℕ → ℕ → Notice → List Hold → List Hold
refresh_hold op now n [] = []
refresh_hold op now n (h ∷ hs) =
    let rest = refresh_hold op now n hs in
    if h.operation_id == op
    then record h { heartbeat_at = now; dimension = n.dimension; reason = n.reason } ∷ hs
    else h ∷ rest

abbrev pub hold_operations : List Hold → List ℕ
hold_operations = map (λ h. h.operation_id)

-- HoldAdmission: its checks, and the mutation that records or refreshes the hold.
unfoldable pub hold_admission :
    Caller → ℕ → WorkClass → Notice → WorkState → WorkState × Result (Unit {0})
unfolding refresh_hold
hold_admission c op class n s =
    if not (valid_private_id op) then (s, err invalid_id) else elim (c.identity c.pid) [
      | none ↦ (s, err invalid_identity)
      | some owner ↦
          if owner == 0
          then (s, err invalid_identity)
          else if contains op (hold_operations s.admission_holds)
          then (record s { admission_holds = refresh_hold op c.now n s.admission_holds }, ok tt)
          else (
            record s { admission_holds = s.admission_holds ++ new_hold c op class owner n ∷ [] },
            ok tt,
          )
    ]
  where
    new_hold : Caller → ℕ → WorkClass → ℕ → Notice → Hold
    new_hold c op class owner n = record {
      operation_id = op;
      class = class;
      weight = weight c.cpus c.limits class;
      pid = c.pid;
      owner_identity = owner;
      held_since = c.now;
      heartbeat_at = c.now;
      dimension = n.dimension;
      reason = n.reason;
    }

-- ReleaseAdmission; an absent hold is no error.
unfoldable pub release_admission : ℕ → WorkState → WorkState × Result (Unit {0})
release_admission op s = if not (valid_private_id op) then (s, err invalid_id) else (
  record s { admission_holds = keep_if (λ h. not (h.operation_id == op)) s.admission_holds },
  ok tt,
)
