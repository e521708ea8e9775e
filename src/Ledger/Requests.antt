-- ===== src/Ledger/Requests.antt =====
-- The requests of operators and agents for priority: overrideWaiters and ClearWaiterOverride of
-- sessionpressure/workoverride.go, with the callers of the first.
pub mod Durable
pub mod Priority
pub mod Sequence
use session_pressure.Limits.{WorkClass}
use session_pressure.Ledger.{WorkState, Waiter, waiter_operations}
use session_pressure.Common.{
  ℕ, List, Bool, true, ◌∷◌, if◌then◌else◌, ◌&&◌, ◌==◌, contains, take, ◌+◌, same?, not, is_empty,
  [], none, ◌++◌, some, leb, false, length, ltb,
}
use session_pressure.Ledger.Override.{work_override_positions, persisted_work_state_schema}
use session_pressure.Ledger.Operations.{
  Result, err, ok, Caller, find_waiter, waiter_not_found, valid_private_id, invalid_id,
  too_many_overrides, queue_unsupported, audit_failed, not_pinned, require, ◌>>◌, ◌>>=◌, ◌>>=◌,
  no_operations,
}

abbrev pub maximum_override_queue : ℕ
maximum_override_queue = 64

abbrev pub override_queue_minimum_schema : ℕ
override_queue_minimum_schema = 8

-- WorkOverrideResult. Its actor is the flag of the request: an agent puts its operation behind the
-- pins, an operator replaces them.
pub record Promotion : Type 0 where
  pub operation_id : ℕ
  pub class : WorkClass
  pub weight : ℕ
  pub pid : ℕ
  pub previous_position : ℕ
  pub requested_at : ℕ
  pub already_requested : Bool
  pub override_position : ℕ

abbrev pub all_valid : List ℕ → Bool
all_valid [] = true
all_valid (op ∷ ops) = let rest = all_valid ops in valid_private_id op && rest

-- The place of an operation, from 1; 0 where it has none.
unfoldable pub position_of : ℕ → List ℕ → ℕ
position_of op [] = 0
position_of op (x ∷ xs) =
    let rest = position_of op xs in if x == op then 1 else if rest == 0 then 0 else rest + 1

abbrev pub in_front {ℓ} : {A : Type ℓ} → A → Result (List A) → Result (List A)
in_front x rest = rest >>= λ xs. ok (x ∷ xs)

-- The waiters of the requested operations, each once, in the order of the request.
unfoldable pub resolve : List Waiter → List ℕ → List ℕ → Result (List Waiter)
resolve queue seen [] = ok []
resolve queue seen (op ∷ ops) =
    let again = resolve queue seen ops in
    let rest = resolve queue (op ∷ seen) ops in
    if contains op seen then again else elim (find_waiter op queue) [
      | none ↦ err waiter_not_found
      | some target ↦ in_front target rest
    ]

-- What is asked for: the given operations, or the front of the queue; behind the pinned ones.
unfoldable pub request : Bool → Bool → List ℕ → WorkState → List ℕ
request all append_pinned ops s =
    let asked = if all then take maximum_override_queue (waiter_operations s.waiters) else ops in
    if append_pinned then work_override_positions s ++ asked else asked

unfoldable pub promotion : WorkState → Bool → ℕ → ℕ → Waiter → Promotion
unfolding position_of
promotion s already at sequence w = record {
  operation_id = w.operation_id;
  class = w.class;
  weight = w.weight;
  pid = w.pid;
  previous_position = position_of w.operation_id (waiter_operations s.waiters);
  requested_at = at;
  already_requested = already;
  override_position = sequence + 1;
}

-- The clock of a promotion that is confirmed again.
abbrev pub recorded_at : Caller → WorkState → ℕ → ℕ
recorded_at c s sequence =
    if sequence == 0 then elim s.override_requested_at [ none ↦ c.now | some at ↦ at ] else c.now

-- Each new place is recorded before the state changes; `audited` says whether that succeeds.
unfoldable pub record_intents :
    Caller → (ℕ → Bool) → WorkState → List ℕ → ℕ → List Waiter → Result (List Promotion)
unfolding promotion position_of
record_intents c audited s previous sequence [] = ok []
record_intents c audited s previous sequence (w ∷ ws) =
    let rest = record_intents c audited s previous (sequence + 1) ws in
    if position_of w.operation_id previous == sequence + 1
    then in_front (promotion s true (recorded_at c s sequence) sequence w) rest
    else if not (audited w.operation_id)
    then err audit_failed
    else in_front (promotion s false c.now sequence w) rest

-- The new sequence; the head that stays keeps its clock. No caller gives an empty one.
unfoldable pub pin : ℕ → List ℕ → WorkState → WorkState
pin now [] s = s
pin now (head ∷ tail) s =
    let same = same? (some head) s.override_operation in
    record s {
      override_operation = if same then s.override_operation else some head;
      override_requested_at = if same then s.override_requested_at else some now;
      override_queue = tail;
    }

-- What the mutation of overrideWaiters decides before it changes the state.
unfoldable pub plan :
    Caller → (ℕ → Bool) → Bool → Bool → List ℕ → WorkState → Result (List Waiter × List Promotion)
unfolding resolve request record_intents
plan c audited all append_pinned ops s = do
  require (not (all && is_empty s.waiters)) waiter_not_found
  ordered ← resolve s.waiters [] (request all append_pinned ops s)
  require (leb (length ordered) maximum_override_queue) too_many_overrides
  require
      (not (
        ltb 1 (length ordered)
        && ltb (persisted_work_state_schema s) override_queue_minimum_schema))
      queue_unsupported
  promotions ← record_intents c audited s (work_override_positions s) 0 ordered
  ok (ordered, promotions)

-- The mutation of overrideWaiters.
unfoldable pub override_waiters :
    Caller → (ℕ → Bool) → Bool → Bool → List ℕ → WorkState → WorkState × Result (List Promotion)
unfolding plan pin
override_waiters c audited all append_pinned ops s = elim (plan c audited all append_pinned ops s) [
  | err e ↦ (s, err e)
  | ok (ordered, promotions) ↦ (pin c.now (waiter_operations ordered) s, ok promotions)
]

-- The checks of overrideWaiters in front of the lock.
unfoldable pub check_request : List ℕ → Result (Unit {0})
check_request ops =
    if not (all_valid ops)
    then err invalid_id
    else require (leb (length ops) maximum_override_queue) too_many_overrides

abbrev pub audits_all : (ℕ → Bool) → List ℕ → Bool
audits_all audited [] = true
audits_all audited (op ∷ ops) = let rest = audits_all audited ops in audited op && rest

-- The mutation of ClearWaiterOverride; its value is the sequence that was dropped.
unfoldable pub clear_waiter_override : (ℕ → Bool) → WorkState → WorkState × Result (List ℕ)
clear_waiter_override audited s =
    let positions = work_override_positions s in
    if is_empty positions
    then (s, err not_pinned)
    else if not (audits_all audited positions)
    then (s, err audit_failed)
    else (
      record s { override_operation = none; override_requested_at = none; override_queue = [] },
      ok positions,
    )

-- The checks in front of the lock leave the state as it is.
unfoldable pub checked {ℓ} :
    {A : Type ℓ} → Result (Unit {0}) → WorkState → WorkState × Result A → WorkState × Result A
checked (err e) s outcome = (s, err e)
checked (ok _) s outcome = outcome

-- OverrideWaiters.
unfoldable pub override_operations :
    Caller → (ℕ → Bool) → List ℕ → WorkState → WorkState × Result (List Promotion)
unfolding checked check_request override_waiters
override_operations c audited ops s =
    if is_empty ops
    then (s, err no_operations)
    else checked (check_request ops) s (override_waiters c audited false false ops s)

-- OverrideAllWaiters.
unfoldable pub override_all_waiters :
    Caller → (ℕ → Bool) → WorkState → WorkState × Result (List Promotion)
unfolding override_waiters
override_all_waiters c audited s = override_waiters c audited true false [] s

-- PrioritizeWaiter.
unfoldable pub prioritize_waiter :
    Caller → (ℕ → Bool) → ℕ → WorkState → WorkState × Result (List Promotion)
unfolding checked check_request override_waiters
prioritize_waiter c audited op s =
    checked (check_request (op ∷ [])) s (override_waiters c audited false true (op ∷ []) s)
