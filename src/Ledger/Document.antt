-- ===== src/Ledger/Document.antt =====
-- The document in the state file and its older schemas: readState and writeState of
-- sessionpressure/worklease.go. A document is what the decoder makes of the file: a field that a
-- schema does not write is its zero value.
pub mod Roundtrip
use session_pressure.Ledger.Operations.{
  legacy_owner_token, Result, ok, err, bad_schema, unexpected_owner,
}
use session_pressure.Ledger.{
  OriginStamp, Lease, Waiter, WorkState, unreserved, Hold, Latch, no_selection,
}
use session_pressure.Common.{
  ℕ, Bool, Option, ◌^◌, List, none, if◌then◌else◌, not, [], leb, ◌==◌, false, map, ◌∷◌, some, ◌||◌,
  ltb, ◌&&◌, is_empty,
}
use session_pressure.Ledger.Override.{schema_current}

-- The private identity that the empty text stands for; it is not valid.
abbrev pub empty_id : ℕ
empty_id = 2 ^ 128

abbrev pub empty_stamp : OriginStamp
empty_stamp = record { kind = ""; schedule_id = ""; schedule_run_id = ""; agent_kind = "" }

pub record Document : Type 0 where
  pub schema_version : ℕ
  pub leases : List Lease
  pub waiters : List Waiter
  pub override_operation : Option ℕ
  pub override_requested_at : Option ℕ
  pub override_queue : List ℕ
  pub admission_holds : List Hold
  pub admission_latch : Option Latch

-- The fields that schemas 3 to 5 write of a lease: legacyLeaseV3.
unfoldable pub lease_v3 : Lease → Lease
lease_v3 l = record l { queued_at = 0; origin = empty_stamp; parked_at = none }

-- legacyLeaseV2.
unfoldable pub lease_v2 : Lease → Lease
unfolding lease_v3
lease_v2 l = record (lease_v3 l) {
  operation_id = empty_id;
  supervisor_pid = 0;
  supervisor_identity = 0;
}

-- legacyLeaseV1.
unfoldable pub lease_v1 : Lease → Lease
unfolding lease_v2
lease_v1 l = record (lease_v2 l) { owner_identity = 0 }

-- legacyWaiterV4.
unfoldable pub waiter_v4 : Waiter → Waiter
waiter_v4 w = record w { origin = empty_stamp; reservation_kind = unreserved; reserved_at = none }

-- legacyWaiterV3.
unfoldable pub waiter_v3 : Waiter → Waiter
unfolding waiter_v4
waiter_v3 w = record (waiter_v4 w) {
  bypass_count = 0;
  last_bypassed_at = none;
  protected_at = none;
}

-- What writeState keeps of a lease and of a waiter, by schema.
unfoldable pub lease_at : ℕ → Lease → Lease
unfolding lease_v1 lease_v2 lease_v3
lease_at v l =
    if leb 6 v then l else if leb 3 v then lease_v3 l else if v == 1 then lease_v1 l else lease_v2 l

unfoldable pub waiter_at : ℕ → Waiter → Waiter
unfolding waiter_v3 waiter_v4
waiter_at v w = if leb 6 v then w else if leb 4 v then waiter_v4 w else waiter_v3 w

-- The version that is written: from the current one on it is the current one, and outside of the
-- known ones it is 2.
abbrev pub written_version : ℕ → ℕ
written_version v = if leb schema_current v then schema_current else if v == 0 then 2 else v

unfoldable pub write : WorkState → Document
unfolding lease_at waiter_at
write s = record {
  schema_version = written_version s.schema_version;
  leases = map (lease_at s.schema_version) s.leases;
  waiters = if leb 3 s.schema_version then map (waiter_at s.schema_version) s.waiters else [];
  override_operation = if leb 5 s.schema_version then s.override_operation else none;
  override_requested_at = if leb 5 s.schema_version then s.override_requested_at else none;
  override_queue = if leb 8 s.schema_version then s.override_queue else [];
  admission_holds = if leb 7 s.schema_version then s.admission_holds else [];
  admission_latch = if leb 7 s.schema_version then s.admission_latch else none;
}

-- Version 1 has no owners: its leases are kept without one.
unfoldable pub bless_legacy : Lease → Lease
bless_legacy l = record l { owner_identity = legacy_owner_token }

abbrev pub has_owner : Lease → Bool
has_owner l = not (l.owner_identity == 0)

abbrev pub any_of {ℓ} : {A : Type ℓ} → (A → Bool) → List A → Bool
any_of p [] = false
any_of p (x ∷ xs) = let rest = any_of p xs in p x || rest

-- The fields that an older schema may lack.
unfoldable pub fill_lease : Lease → Lease
fill_lease l = record l {
  operation_id = if l.operation_id == empty_id then l.id else l.operation_id;
  queued_at = if l.queued_at == 0 then l.started_at else l.queued_at;
}

abbrev pub blank_state : WorkState
blank_state = record {
  schema_version = schema_current;
  leases = [];
  waiters = [];
  override_operation = none;
  override_requested_at = none;
  override_queue = [];
  admission_holds = [];
  admission_latch = none;
  pruned_admission_holds = 0;
  migrated = false;
  legacy_active = false;
  last_selection = no_selection;
  last_shadow_selection = no_selection;
}

-- What readState makes of a lease, by schema.
unfoldable pub load_lease : ℕ → Lease → Lease
unfolding bless_legacy fill_lease
load_lease v l =
    if ltb v schema_current then fill_lease (if v == 1 then bless_legacy l else l) else l

-- The state of a document of a known version.
unfoldable pub migrate : Document → WorkState
unfolding load_lease
migrate d =
    let v = d.schema_version in
    let ls = map (load_lease v) d.leases in
    let ws = if ltb v 3 then [] else d.waiters in
    record blank_state {
      schema_version = v;
      leases = ls;
      waiters = ws;
      override_operation = d.override_operation;
      override_requested_at = d.override_requested_at;
      override_queue = d.override_queue;
      admission_holds = d.admission_holds;
      admission_latch = d.admission_latch;
      legacy_active = ltb v schema_current && (not (is_empty ls) || not (is_empty ws));
    }

-- readState; `none` is a file that does not exist.
unfoldable pub read : Option Document → Result WorkState
unfolding migrate
read none = ok blank_state
read (some d) =
    if ltb d.schema_version 1 || ltb schema_current d.schema_version
    then err bad_schema
    else if d.schema_version == 1 && any_of has_owner d.leases
    then err unexpected_owner
    else ok (migrate d)
