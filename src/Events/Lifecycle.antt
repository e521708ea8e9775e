-- ===== src/Events/Lifecycle.antt =====
-- The life cycle of an operation in its audit rows: workEventLifecycleValidator.add,
-- validateWorkEventLifecycle, partitionWorkEventLifecycle and normalizeLateReconciliationTerminals
-- of sessionpressure/workevent.go.
--
-- The map of the validator is a function. The entry of an operation that was refused is not read
-- again, by either reader, so it is left as it was. The texts of errors are constructors.
use session_pressure.Events.{
  WorkEvent, WorkEventType, EndReason, queued, acquired, reserved, reacquired, started, completed,
  failed, cancelled, expired, reused, override_requested, dead_lease_owner, reused_lease_pid,
  dead_waiter_owner, reused_waiter_pid, other_outcome, same_type, same_class, same_int, is_positive,
  valid_digest,
}
use session_pressure.Common.{
  Bool, ℕ, Option, List, ◌||◌, ◌&&◌, not, ltb, leb, true, false, none, some, [], ◌∷◌, is_some, ◌+◌,
  ◌==◌, same?, if◌then◌else◌,
}
use session_pressure.Common.Int.{ℤ}
use session_pressure.Limits.{WorkClass}

pub record Lifecycle : Type 0 where
  pub class : WorkClass
  pub weight : ℤ
  pub lease_id : Option ℕ
  pub command_digest : Option ℕ
  pub session_digest : Option ℕ
  pub is_reserved : Bool
  pub last_order : Option ℕ  -- `none` is the -1 of a new operation
  pub seen : List WorkEventType
  pub terminal : Option WorkEvent  -- terminalEvent; its type is the field `terminal` of the source

pub data LifecycleError : Type 0 where
  changed_class_or_weight duplicate_event event_after_terminal out_of_order : LifecycleError
  changed_lease already_reserved not_reserved changed_command changed_session : LifecycleError
  multiple_terminals : LifecycleError

pub data Outcome {ℓ} (Value : Type ℓ) : Type ℓ where
  refused : LifecycleError → Outcome Value
  accepted : Value → Outcome Value

infixl 5 ◌>>=◌
abbrev pub ◌>>=◌ {ℓ κ} :
    {Value : Type ℓ} {Next : Type κ} → Outcome Value → (Value → Outcome Next) → Outcome Next
outcome >>= next = elim outcome [ refused e ↦ refused e | accepted value ↦ next value ]

abbrev pub work_event_order : WorkEventType → ℕ
work_event_order queued = 0
work_event_order override_requested = 1
work_event_order acquired = 2
work_event_order reserved = 3
work_event_order reacquired = 4
work_event_order started = 5
work_event_order _ = 6

abbrev pub is_terminal_event : WorkEventType → Bool
is_terminal_event completed = true
is_terminal_event failed = true
is_terminal_event cancelled = true
is_terminal_event expired = true
is_terminal_event reused = true
is_terminal_event _ = false

abbrev pub is_reconciliation_expiration : EndReason → Bool
is_reconciliation_expiration dead_lease_owner = true
is_reconciliation_expiration reused_lease_pid = true
is_reconciliation_expiration dead_waiter_owner = true
is_reconciliation_expiration reused_waiter_pid = true
is_reconciliation_expiration other_outcome = false

abbrev pub late_terminal_lag : ℕ
late_terminal_lag = 5_000_000_000

-- The reconciler took a lease for lost.
abbrev pub is_lease_loss : EndReason → Bool
is_lease_loss dead_lease_owner = true
is_lease_loss reused_lease_pid = true
is_lease_loss _ = false

-- The end of a child that ran.
abbrev pub is_child_end : WorkEventType → Bool
is_child_end completed = true
is_child_end failed = true
is_child_end cancelled = true
is_child_end _ = false

abbrev pub has_digest : Option ℕ → Bool
has_digest none = false
has_digest (some d) = valid_digest d

-- A real outcome that its wrapper recorded shortly after the reconciler had given up the lease.
unfoldable pub is_late_terminal : WorkEvent → WorkEvent → Bool
is_late_terminal gone real =
    same_type gone.event expired
    && is_lease_loss gone.outcome
    && is_child_end real.event
    && is_some real.exit_code
    && has_digest real.command_digest
    && gone.operation_id == real.operation_id
    && same_class gone.class real.class
    && same_int gone.weight real.weight
    && is_some gone.lease_id
    && same? gone.lease_id real.lease_id
    && is_positive gone.pid
    && same_int gone.pid real.pid
    && leb gone.timestamp real.timestamp
    && leb real.timestamp (gone.timestamp + late_terminal_lag)

abbrev pub has_seen : WorkEventType → List WorkEventType → Bool
has_seen t [] = false
has_seen t (u ∷ us) = same_type t u || has_seen t us

-- The rows that an operation may have more than once.
abbrev pub may_repeat : WorkEventType → Bool
may_repeat override_requested = true
may_repeat reserved = true
may_repeat reacquired = true
may_repeat _ = false

abbrev pub below : ℕ → Option ℕ → Bool
below order none = false
below order (some last) = ltb order last

abbrev pub check_shape : Lifecycle → WorkEvent → Outcome Lifecycle
check_shape s e =
    if same_class e.class s.class && same_int e.weight s.weight
    then accepted s
    else refused changed_class_or_weight

abbrev pub mark_seen : Lifecycle → WorkEvent → Outcome Lifecycle
mark_seen s e =
    if has_seen e.event s.seen && not (may_repeat e.event)
    then refused duplicate_event
    else accepted (record s { seen = e.event ∷ s.seen })

-- A reservation that follows a reacquisition.
abbrev pub is_pressure_cycle : Lifecycle → WorkEventType → Bool
is_pressure_cycle s t =
    same_type t reserved
    && same? s.last_order (some (work_event_order reacquired))
    && not s.is_reserved

abbrev pub advance_order : Lifecycle → WorkEvent → Outcome Lifecycle
advance_order s e =
    if same_type e.event override_requested
    then (if is_some s.terminal then refused event_after_terminal else accepted s)
    else if below (work_event_order e.event) s.last_order && not (is_pressure_cycle s e.event)
    then refused out_of_order
    else accepted (record s { last_order = some (work_event_order e.event) })

abbrev pub clashes : Option ℕ → ℕ → Bool
clashes none new = false
clashes (some old) new = not (old == new)

abbrev pub check_lease_id : Lifecycle → WorkEvent → Outcome Lifecycle
check_lease_id s e = elim e.lease_id [
  | none ↦ accepted s
  | some id ↦
      if clashes s.lease_id id && (not (same_type e.event reacquired) || not s.is_reserved)
      then refused changed_lease
      else accepted (record s { lease_id = some id })
]

abbrev pub turn_reservation : Lifecycle → WorkEvent → Outcome Lifecycle
turn_reservation s e = elim e.event [
  | reserved ↦
      if s.is_reserved then refused already_reserved else accepted (record s { is_reserved = true })
  | reacquired ↦
      if not s.is_reserved
      then refused not_reserved
      else accepted (record s { is_reserved = false })
  | _ ↦ accepted s
]

abbrev pub check_command : Lifecycle → WorkEvent → Outcome Lifecycle
check_command s e = elim e.command_digest [
  | none ↦ accepted s
  | some d ↦
      if clashes s.command_digest d
      then refused changed_command
      else accepted (record s { command_digest = some d })
]

abbrev pub check_session : Lifecycle → WorkEvent → Outcome Lifecycle
check_session s e = elim e.session_digest [
  | none ↦ accepted s
  | some d ↦
      if clashes s.session_digest d
      then refused changed_session
      else accepted (record s { session_digest = some d })
]

abbrev pub close : Lifecycle → WorkEvent → Outcome Lifecycle
close s e = if not (is_terminal_event e.event) then accepted s else elim s.terminal [
  | none ↦ accepted (record s { terminal = some e })
  | some first ↦
      if same_type e.event expired
        && not (same_type first.event expired)
        && is_reconciliation_expiration e.outcome
      then accepted s
      else if is_late_terminal first e
      then accepted (record s { terminal = some e })
      else refused multiple_terminals
]

-- One row of an operation.
unfoldable pub follow : Lifecycle → WorkEvent → Outcome Lifecycle
follow s e = do
  shaped ← check_shape s e
  marked ← mark_seen shaped e
  ordered ← advance_order marked e
  leased ← check_lease_id ordered e
  turned ← turn_reservation leased e
  commanded ← check_command turned e
  bound ← check_session commanded e
  close bound e

abbrev pub new_lifecycle : WorkEvent → Lifecycle
new_lifecycle e = record {
  class = e.class;
  weight = e.weight;
  lease_id = none;
  command_digest = none;
  session_digest = none;
  is_reserved = false;
  last_order = none;
  seen = [];
  terminal = none;
}

abbrev pub Validator : Type 0
Validator = ℕ → Option Lifecycle

abbrev pub new_validator : Validator
new_validator op = none

-- The life cycle that a row continues.
abbrev pub current : Option Lifecycle → WorkEvent → Lifecycle
current none e = new_lifecycle e
current (some s) e = s

abbrev pub store : Validator → ℕ → Lifecycle → Validator
store v op s other = if other == op then some s else v other

unfoldable pub add : Validator → WorkEvent → Outcome Validator
add v e = do s ← follow (current (v e.operation_id) e) e; accepted (store v e.operation_id s)
