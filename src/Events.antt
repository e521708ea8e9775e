-- ===== src/Events.antt =====
-- The audit rows of heavy work: WorkEvent, its types and its checks, of
-- sessionpressure/workevent.go.
--
-- An empty text of an optional field is `none`. A private identity is the number that its 32 digits
-- write, as in the ledger, and a digest the number that its 64 digits write; a text of any other
-- form is a number beyond these. Durations, counters and weights are integers, since the decoder
-- accepts negative ones; percentages, sizes and ages are integers of thousandths. Classes and event
-- types outside the known ones are not represented, and neither are NaN and the infinities.
pub mod Places
pub mod Readers
pub mod Corrections
pub mod Endings
pub mod Advances
pub mod Types
pub mod Regular
pub mod Stages
pub mod Rows
pub mod Independence
pub mod Lifecycle
use session_pressure.Common.{
  Bool, ℕ, Option, List, ◌||◌, ◌&&◌, ◌^◌, not, ltb, true, false, none, some, [], ◌∷◌, is_some,
  first_error, ◌==◌,
}
use session_pressure.Common.Int.{ℤ, pos, negsuc, is_negative}
use session_pressure.Limits.{
  WorkClass, test, build, express_test, express_build, install, emulator, browser, heavy, benchmark,
  benchmark_exclusive, reclaim,
}
use session_pressure.Ledger.Operations.{valid_private_id}

pub data WorkEventType : Type 0 where
  queued acquired reserved reacquired started completed failed cancelled : WorkEventType
  expired reused override_requested : WorkEventType

-- The number of a type in the list of the source.
abbrev pub type_index : WorkEventType → ℕ
type_index queued = 0
type_index acquired = 1
type_index reserved = 2
type_index reacquired = 3
type_index started = 4
type_index completed = 5
type_index failed = 6
type_index cancelled = 7
type_index expired = 8
type_index reused = 9
type_index override_requested = 10

abbrev pub same_type : WorkEventType → WorkEventType → Bool
same_type a b = type_index a == type_index b

-- What a terminal row says of its end; `other_outcome` is any other text.
pub data EndReason : Type 0 where
  dead_lease_owner reused_lease_pid dead_waiter_owner reused_waiter_pid other_outcome : EndReason

pub data Blocker : Type 0 where
  no_blocker blocker_none pressure capacity fairness reservation upgrade state_lock : Blocker
  other_blocker : Blocker

pub data ReuseDecision : Type 0 where
  no_decision reuse_reused reuse_ran other_decision : ReuseDecision

pub data ReuseRefusal : Type 0 where
  no_refusal stale_artifact missing_artifact source_changed ttl_expired disabled : ReuseRefusal
  receipt_unavailable singleflight_only undeclared_binary other_refusal : ReuseRefusal

pub data PressureDimension : Type 0 where
  no_dimension cpu memory storage swap thermal unknown other_dimension : PressureDimension

-- Why the pressure gate admitted or deferred; the other decisions are not told apart.
pub data AdmissionNote : Type 0 where
  swap_thrash_deferred other_note : AdmissionNote

-- The fields that the modelled code reads.
pub record WorkEvent : Type 0 where
  pub schema_version : ℕ
  pub event_id : ℕ
  pub request_id : Option ℕ
  pub timestamp : ℕ
  pub event : WorkEventType
  pub operation_id : ℕ
  pub lease_id : Option ℕ
  pub class : WorkClass
  pub requested_class : Option WorkClass
  pub weight : ℤ
  pub pid : ℤ
  pub session_digest : Option ℕ
  pub command_digest : Option ℕ
  pub blocker : Blocker
  pub queue_position : ℤ
  pub queue_depth : ℤ
  pub capacity : ℤ
  pub used : ℤ
  pub available : ℤ
  pub wait_ms : ℤ
  pub admission_wait_ms : ℤ
  pub queue_wait_ms : ℤ
  pub pressure_wait_ms : ℤ
  pub prestart_ms : ℤ
  pub runtime_ms : ℤ
  pub pressure_dimension : PressureDimension
  pub coordinated_attribution_available : Bool
  pub coordinated_cpu_available : Bool
  pub coordinated_cpu_percent : ℤ
  pub coordinated_lease_count : ℤ
  pub coordinated_process_count : ℤ
  pub coordinated_inventory_age : ℤ
  pub exit_code : Option ℤ
  pub outcome : EndReason
  pub bypassed_count : ℤ
  pub batch_step_count : ℤ
  pub batch_completed_steps : ℤ
  pub reuse_decision : ReuseDecision
  pub reuse_refusal_reason : ReuseRefusal
  pub reuse_key_digest : Option ℕ
  pub receipt_digest : Option ℕ
  pub singleflight_wait_ms : ℤ
  pub admission_decision : AdmissionNote
  pub queue_host_cpu_available : Bool
  pub queue_host_cpu_percent : ℤ
  pub queue_coordinated_cpu_available : Bool
  pub queue_coordinated_cpu_percent : ℤ
  pub queue_coordinated_inventory_age : ℤ
  pub command_cpu_available : Bool
  pub command_cpu_ms : ℤ
  pub command_peak_rss : ℤ
  pub lease_reserved_cores : ℤ

abbrev pub minimum_work_event_schema : ℕ
minimum_work_event_schema = 1

abbrev pub work_event_schema : ℕ
work_event_schema = 4

pub data EventError : Type 0 where
  unsupported_schema timestamp_required bad_event_id bad_operation_id bad_lease_id : EventError
  bad_session_digest bad_command_digest bad_receipt_digest bad_reuse_key_digest : EventError
  bad_reuse_decision bad_reuse_refusal refusal_without_ran redundant_requested_class : EventError
  bad_request_id bad_counters bad_coordinated_percent bad_queue_percent : EventError
  queue_percent_unavailable bad_resource_evidence bad_command_cpu bad_inventory_age : EventError
  coordinated_without_attribution unknown_blocker unknown_dimension : EventError
  lease_id_required lease_id_on_queued : EventError

-- 32 bytes in lowercase hexadecimal, behind the name of the digest.
abbrev pub valid_digest : ℕ → Bool
valid_digest d = ltb d (2 ^ 256)

-- The field is set, and its text is not well formed.
abbrev pub malformed : (ℕ → Bool) → Option ℕ → Bool
malformed valid none = false
malformed valid (some text) = not (valid text)

abbrev pub is_positive : ℤ → Bool
is_positive (pos n) = ltb 0 n
is_positive (negsuc n) = false

-- `a > b` on integers.
abbrev pub exceeds : ℤ → ℤ → Bool
exceeds (pos a) (pos b) = ltb b a
exceeds (pos a) (negsuc b) = true
exceeds (negsuc a) (pos b) = false
exceeds (negsuc a) (negsuc b) = ltb a b

abbrev pub same_int : ℤ → ℤ → Bool
same_int (pos a) (pos b) = a == b
same_int (negsuc a) (negsuc b) = a == b
same_int _ _ = false

abbrev pub class_index : WorkClass → ℕ
class_index test = 0
class_index build = 1
class_index express_test = 2
class_index express_build = 3
class_index install = 4
class_index emulator = 5
class_index browser = 6
class_index heavy = 7
class_index benchmark = 8
class_index benchmark_exclusive = 9
class_index reclaim = 10

abbrev pub same_class : WorkClass → WorkClass → Bool
same_class a b = class_index a == class_index b

abbrev pub is_percent : ℤ → Bool
is_percent p = not (is_negative p) && not (exceeds p (pos 100_000))

abbrev pub known_decision : ReuseDecision → Bool
known_decision other_decision = false
known_decision _ = true

abbrev pub known_refusal : ReuseRefusal → Bool
known_refusal other_refusal = false
known_refusal _ = true

-- The refusal is set, and the decision is not `ran`.
abbrev pub refused_without_ran : ReuseRefusal → ReuseDecision → Bool
refused_without_ran no_refusal _ = false
refused_without_ran _ reuse_ran = false
refused_without_ran _ _ = true

abbrev pub known_blocker : Blocker → Bool
known_blocker other_blocker = false
known_blocker _ = true

abbrev pub known_dimension : PressureDimension → Bool
known_dimension other_dimension = false
known_dimension _ = true

abbrev pub redundant_request : WorkEvent → Bool
redundant_request e = elim e.requested_class [
  | none ↦ false
  | some requested ↦ same_class requested e.class
]

abbrev pub any_negative : List ℤ → Bool
any_negative [] = false
any_negative (n ∷ ns) = is_negative n || any_negative ns

abbrev pub bad_counts : WorkEvent → Bool
bad_counts e =
    not (is_positive e.weight)
    || any_negative (
        e.wait_ms ∷ e.admission_wait_ms ∷ e.queue_wait_ms ∷ e.pressure_wait_ms ∷ e.prestart_ms
        ∷ e.runtime_ms ∷ e.queue_position ∷ e.queue_depth ∷ e.capacity ∷ e.used ∷ e.available
        ∷ e.bypassed_count ∷ e.batch_step_count ∷ e.batch_completed_steps ∷ [])
    || exceeds e.batch_completed_steps e.batch_step_count
    || any_negative
        (e.singleflight_wait_ms ∷ e.coordinated_lease_count ∷ e.coordinated_process_count ∷ [])

-- The rows that a lease must be named on.
abbrev pub needs_lease : WorkEventType → Bool
needs_lease acquired = true
needs_lease reserved = true
needs_lease reacquired = true
needs_lease started = true
needs_lease completed = true
needs_lease _ = false

-- The guards of Validate, in their order.
unfoldable pub event_checks : WorkEvent → List (Bool × EventError)
event_checks e =
    (
      ltb e.schema_version minimum_work_event_schema || ltb work_event_schema e.schema_version,
      unsupported_schema,
    )
    ∷ (e.timestamp == 0, timestamp_required)
    ∷ (not (valid_private_id e.event_id), bad_event_id)
    ∷ (not (valid_private_id e.operation_id), bad_operation_id)
    ∷ (malformed valid_private_id e.lease_id, bad_lease_id)
    ∷ (malformed valid_digest e.session_digest, bad_session_digest)
    ∷ (malformed valid_digest e.command_digest, bad_command_digest)
    ∷ (malformed valid_digest e.receipt_digest, bad_receipt_digest)
    ∷ (malformed valid_digest e.reuse_key_digest, bad_reuse_key_digest)
    ∷ (not (known_decision e.reuse_decision), bad_reuse_decision)
    ∷ (not (known_refusal e.reuse_refusal_reason), bad_reuse_refusal)
    ∷ (refused_without_ran e.reuse_refusal_reason e.reuse_decision, refusal_without_ran)
    ∷ (redundant_request e, redundant_requested_class)
    ∷ (malformed valid_private_id e.request_id, bad_request_id)
    ∷ (bad_counts e, bad_counters)
    ∷ (not (is_percent e.coordinated_cpu_percent), bad_coordinated_percent)
    ∷ (
      not (is_percent e.queue_host_cpu_percent && is_percent e.queue_coordinated_cpu_percent),
      bad_queue_percent,
    )
    ∷ (
      (is_positive e.queue_host_cpu_percent && not e.queue_host_cpu_available)
          || (is_positive e.queue_coordinated_cpu_percent && not e.queue_coordinated_cpu_available),
      queue_percent_unavailable,
    )
    ∷ (
      any_negative
          (e.queue_coordinated_inventory_age ∷ e.command_peak_rss ∷ e.lease_reserved_cores ∷ []),
      bad_resource_evidence,
    )
    ∷ (
      is_negative e.command_cpu_ms || (is_positive e.command_cpu_ms && not e.command_cpu_available),
      bad_command_cpu,
    )
    ∷ (is_negative e.coordinated_inventory_age, bad_inventory_age)
    ∷ (
      e.coordinated_cpu_available && not e.coordinated_attribution_available,
      coordinated_without_attribution,
    )
    ∷ (not (known_blocker e.blocker), unknown_blocker)
    ∷ (not (known_dimension e.pressure_dimension), unknown_dimension)
    ∷ (needs_lease e.event && not (is_some e.lease_id), lease_id_required)
    ∷ (same_type e.event queued && is_some e.lease_id, lease_id_on_queued)
    ∷ []

unfoldable pub check_event : WorkEvent → Option EventError
unfolding event_checks
check_event e = first_error (event_checks e)
