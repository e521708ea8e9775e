-- ===== src/Ledger.antt =====
-- The durable state of the work coordinator: the records of sessionpressure/worklease.go and
-- sessionpressure/workadmissionhold.go.
--
-- A private identity is the number that its 32 hexadecimal digits write; a text of any other form
-- is a number from 2 ^ 128 on. An owner token is a number; 0 is the empty text. A time is a number
-- of nanoseconds; 0 is the zero time. A nil pointer is `none`.
pub mod Requests
pub mod Transaction
pub mod Results
pub mod Reconcile
pub mod Document
pub mod Ceiling
pub mod Runs
pub mod Bypasses
pub mod Conservation
pub mod Latching
pub mod Ownership
pub mod Operations
use session_pressure.Common.{
  Bool, ℕ, Option, none, List, true, some, [], sum_of, map, if◌then◌else◌, false, ◌==◌, ltb, ◌*◌,
}
pub mod Select
pub mod Override
use Prim.Native.String.{String}
use session_pressure.Limits.{WorkClass}

abbrev pub milliseconds : ℕ → ℕ
milliseconds n = n * 1_000_000

pub data ReservationKind : Type 0 where
  unreserved pressure unknown_kind : ReservationKind

abbrev pub is_pressure : ReservationKind → Bool
is_pressure pressure = true
is_pressure _ = false

-- What the environment says of the origin of an operation.
pub record OriginStamp : Type 0 where
  pub kind : String
  pub schedule_id : String
  pub schedule_run_id : String
  pub agent_kind : String

pub record Lease : Type 0 where
  pub id : ℕ
  pub operation_id : ℕ
  pub class : WorkClass
  pub weight : ℕ
  pub pid : ℕ
  pub owner_identity : ℕ
  pub supervisor_pid : ℕ
  pub supervisor_identity : ℕ
  pub queued_at : ℕ
  pub started_at : ℕ
  pub origin : OriginStamp
  pub parked_at : Option ℕ

-- The capacity that a lease consumes for admission.
abbrev pub charged_weight : Lease → ℕ
charged_weight l = elim l.parked_at [ none ↦ l.weight | some at ↦ 0 ]

pub record Waiter : Type 0 where
  pub operation_id : ℕ
  pub class : WorkClass
  pub weight : ℕ
  pub pid : ℕ
  pub owner_identity : ℕ
  pub queued_at : ℕ
  pub heartbeat_at : ℕ
  pub origin : OriginStamp
  pub bypass_count : ℕ
  pub last_bypassed_at : Option ℕ
  pub protected_at : Option ℕ
  pub reservation_kind : ReservationKind
  pub reserved_at : Option ℕ

pub record Hold : Type 0 where
  pub operation_id : ℕ
  pub class : WorkClass
  pub weight : ℕ
  pub pid : ℕ
  pub owner_identity : ℕ
  pub held_since : ℕ
  pub heartbeat_at : ℕ
  pub dimension : String
  pub reason : String

-- The shared CPU latch.
pub record Latch : Type 0 where
  pub latched : Bool
  pub latched_at : Option ℕ
  pub dimension : String
  pub reason : String
  pub red_samples : ℕ
  pub recovery_samples : ℕ
  pub block_required : ℕ
  pub release_required : ℕ
  pub observed_at : Option ℕ

pub data ProtectionReason : Type 0 where
  pressure_reservation exclusive_capacity bypass_limit bypass_age materialized : ProtectionReason

abbrev pub is_exclusive : ProtectionReason → Bool
is_exclusive exclusive_capacity = true
is_exclusive _ = false

pub data DecisionReason : Type 0 where
  no_decision queue_empty protected_exclusive_drain green_express_drain_ride : DecisionReason
  protected_bounded_drain queue_head_fits oldest_feasible_head_bypass : DecisionReason
  green_express_overcommit no_waiter_fits_capacity fifo_green_express_overcommit : DecisionReason
  fifo_head_does_not_fit fifo_head_fits priority_override_bounded_drain : DecisionReason
  priority_override_selected : DecisionReason
  protected : ProtectionReason → DecisionReason

pub record Selection : Type 0 where
  pub selected : Option ℕ
  pub protected : Option ℕ
  pub reason : DecisionReason
  pub bypassed : List ℕ

abbrev pub no_selection : Selection
no_selection = record { selected = none; protected = none; reason = no_decision; bypassed = [] }

pub record WorkState : Type 0 where
  pub schema_version : ℕ
  pub leases : List Lease
  pub waiters : List Waiter
  pub override_operation : Option ℕ
  pub override_requested_at : Option ℕ
  pub override_queue : List ℕ
  pub admission_holds : List Hold
  pub admission_latch : Option Latch
  pub pruned_admission_holds : ℕ
  pub migrated : Bool
  pub legacy_active : Bool
  pub last_selection : Selection
  pub last_shadow_selection : Selection

-- The weight that all leases are charged.
abbrev pub used_weight : List Lease → ℕ
used_weight = sum_of charged_weight

abbrev pub lease_operations : List Lease → List ℕ
lease_operations = map (λ l. l.operation_id)

abbrev pub waiter_operations : List Waiter → List ℕ
waiter_operations = map (λ w. w.operation_id)

-- `sort.Slice` orders waiters by the time of queueing, then by identity.
abbrev pub queued_before : Waiter → Waiter → Bool
queued_before v w =
    if v.queued_at == w.queued_at
    then ltb v.operation_id w.operation_id
    else ltb v.queued_at w.queued_at
