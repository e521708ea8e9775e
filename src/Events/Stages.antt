-- ===== src/Events/Stages.antt =====
-- The stages of an operation, and that its accepted rows in sessionpressure/workevent.go follow
-- them: queued, acquired, reserved and taken back any number of times, started, ended. Earlier
-- stages may be missing; after the end there is at most one more row.
use session_pressure.Common.{Bool, List, Option, false, true, ◌≡◌, [], ℕ, some, ◌∷◌, none}
use session_pressure.Events.{
  WorkEvent, WorkEventType, override_requested, queued, acquired, started, reserved, expired,
  reacquired, same_type,
}
use session_pressure.Events.Lifecycle.{
  is_terminal_event, Lifecycle, has_seen, is_reconciliation_expiration, is_late_terminal,
}

pub data Stage : Type 0 where
  at_start in_queue under_lease in_reservation back_under_lease running : Stage
  ended : WorkEvent → Stage  -- the terminal row
  closed : WorkEvent → Stage  -- of two terminal rows, the one that counts

abbrev pub is_open : Stage → Bool
is_open (ended e) = false
is_open (closed e) = false
is_open _ = true

abbrev pub before_lease : Stage → Bool
before_lease at_start = true
before_lease in_queue = true
before_lease _ = false

abbrev pub may_reserve : Stage → Bool
may_reserve at_start = true
may_reserve in_queue = true
may_reserve under_lease = true
may_reserve back_under_lease = true
may_reserve _ = false

abbrev pub may_start : Stage → Bool
may_start running = false
may_start a = is_open a

-- One row moves an operation from a stage to the next.
pub data Step : Stage → WorkEvent → Stage → Type 0 where
  annotates :
      (a : Stage) (e : WorkEvent) → is_open a ≡ true → e.event ≡ override_requested → Step a e a
  enqueues : (e : WorkEvent) → e.event ≡ queued → Step at_start e in_queue
  leases :
      (a : Stage) (e : WorkEvent)
      → before_lease a ≡ true
      → e.event ≡ acquired
      → Step a e under_lease
  reserves :
      (a : Stage) (e : WorkEvent)
      → may_reserve a ≡ true
      → e.event ≡ reserved
      → Step a e in_reservation
  takes_back : (e : WorkEvent) → e.event ≡ reacquired → Step in_reservation e back_under_lease
  starts : (a : Stage) (e : WorkEvent) → may_start a ≡ true → e.event ≡ started → Step a e running
  ends :
      (a : Stage) (e : WorkEvent)
      → is_open a ≡ true
      → is_terminal_event e.event ≡ true
      → Step a e (ended e)
  cleans_up :
      (first e : WorkEvent)
      → same_type first.event expired ≡ false
      → same_type e.event expired ≡ true
      → is_reconciliation_expiration e.outcome ≡ true
      → Step (ended first) e (closed first)
  corrects :
      (first e : WorkEvent) → is_late_terminal first e ≡ true → Step (ended first) e (closed e)

pub data History : Stage → List WorkEvent → Stage → Type 0 where
  done : (a : Stage) → History a [] a
  then_row :
      (a b c : Stage) (e : WorkEvent) (rows : List WorkEvent)
      → Step a e b
      → History b rows c
      → History a (e ∷ rows) c

abbrev pub stage_order : Stage → Option ℕ
stage_order at_start = none
stage_order in_queue = some 0
stage_order under_lease = some 2
stage_order in_reservation = some 3
stage_order back_under_lease = some 4
stage_order running = some 5
stage_order _ = some 6

abbrev pub stage_terminal : Stage → Option WorkEvent
stage_terminal (ended e) = some e
stage_terminal (closed e) = some e
stage_terminal _ = none

-- Whether the reservation is open matters until the start.
abbrev pub Holding : Stage → Bool → Type 0
Holding in_reservation held = held ≡ true
Holding running held = Unit {0}
Holding (ended e) held = Unit {0}
Holding (closed e) held = Unit {0}
Holding _ held = held ≡ false

abbrev pub Marks : Stage → List WorkEventType → Type 0
Marks in_queue ts = has_seen queued ts ≡ true
Marks under_lease ts = has_seen acquired ts ≡ true
Marks running ts = has_seen started ts ≡ true
Marks (ended e) ts = (has_seen e.event ts ≡ true) × (is_terminal_event e.event ≡ true)
Marks (closed e) ts =
    (has_seen e.event ts ≡ true)
    × (has_seen expired ts ≡ true)
    × (is_terminal_event e.event ≡ true)
    × (same_type e.event expired ≡ false)
Marks _ ts = Unit {0}

-- A life cycle stands at a stage.
pub record At (a : Stage) (s : Lifecycle) : Type 0 where
  pub order : s.last_order ≡ stage_order a
  pub holding : Holding a s.is_reserved
  pub marks : Marks a s.seen
  pub end : s.terminal ≡ stage_terminal a
