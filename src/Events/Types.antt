-- ===== src/Events/Types.antt =====
-- The types of audit rows of sessionpressure/workevent.go, told apart.
use session_pressure.Common.{
  ℕ, ◌≡◌, false, inl, inr, clash, arith, true, some, refl, ◌∙◌, ap, sym, if◌then◌else◌, ==→eq, ◌==◌,
  ◌⊎◌,
}
use session_pressure.Events.Stages.{
  Stage, at_start, back_under_lease, running, under_lease, in_reservation, stage_terminal, in_queue,
  ended, closed,
}
use session_pressure.Events.Lifecycle.{
  is_terminal_event, work_event_order, is_child_end, is_late_terminal,
}
use session_pressure.Events.{
  WorkEventType, WorkEvent, same_type, override_requested, queued, acquired, reserved, reacquired,
  started, type_index, completed, expired, failed, cancelled, reused,
}

-- A type is told by its number.
abbrev type_at : ℕ → WorkEventType
type_at n =
    if n == 0
    then queued
    else if n == 1
    then acquired
    else if n == 2
    then reserved
    else if n == 3
    then reacquired
    else if n == 4
    then started
    else if n == 5
    then completed
    else if n == 6
    then failed
    else if n == 7
    then cancelled
    else if n == 8
    then expired
    else if n == 9
    then reused
    else override_requested

type_at-type_index : (t : WorkEventType) → type_at (type_index t) ≡ t
type_at-type_index queued = refl
type_at-type_index acquired = refl
type_at-type_index reserved = refl
type_at-type_index reacquired = refl
type_at-type_index started = refl
type_at-type_index completed = refl
type_at-type_index failed = refl
type_at-type_index cancelled = refl
type_at-type_index expired = refl
type_at-type_index reused = refl
type_at-type_index override_requested = refl

pub same_type→eq : (t u : WorkEventType) → same_type t u ≡ true → t ≡ u
same_type→eq t u h =
    sym (type_at-type_index t)
    ∙ ap type_at (==→eq (type_index t) (type_index u) h)
    ∙ type_at-type_index u

pub terminal_last :
    (t : WorkEventType)
    → is_terminal_event t ≡ true
    → (same_type t override_requested ≡ false) × (work_event_order t ≡ 6)
terminal_last queued h = absurd (clash true refl (sym h))
terminal_last acquired h = absurd (clash true refl (sym h))
terminal_last reserved h = absurd (clash true refl (sym h))
terminal_last reacquired h = absurd (clash true refl (sym h))
terminal_last started h = absurd (clash true refl (sym h))
terminal_last completed h = (refl, refl)
terminal_last failed h = (refl, refl)
terminal_last cancelled h = (refl, refl)
terminal_last expired h = (refl, refl)
terminal_last reused h = (refl, refl)
terminal_last override_requested h = absurd (clash true refl (sym h))

pub child_end_terminal : (t : WorkEventType) → is_child_end t ≡ true → same_type t expired ≡ false
child_end_terminal queued h = refl
child_end_terminal acquired h = refl
child_end_terminal reserved h = refl
child_end_terminal reacquired h = refl
child_end_terminal started h = refl
child_end_terminal completed h = refl
child_end_terminal failed h = refl
child_end_terminal cancelled h = refl
child_end_terminal expired h = absurd (clash true refl (sym h))
child_end_terminal reused h = refl
child_end_terminal override_requested h = refl

pub late_parts :
    (first e : WorkEvent)
    → is_late_terminal first e ≡ true
    → (same_type first.event expired ≡ true) × (is_child_end e.event ≡ true)
unfolding is_late_terminal
late_parts first e h = (ground arith, ground arith)

some_inj : (a b : WorkEvent) → some a ≡ some b → a ≡ b
some_inj a b h = cc

pub stage_of_terminal :
    (a : Stage) (first : WorkEvent)
    → stage_terminal a ≡ some first
    → (a ≡ ended first) ⊎ (a ≡ closed first)
stage_of_terminal at_start first h = cc
stage_of_terminal in_queue first h = cc
stage_of_terminal under_lease first h = cc
stage_of_terminal in_reservation first h = cc
stage_of_terminal back_under_lease first h = cc
stage_of_terminal running first h = cc
stage_of_terminal (ended f) first h = inl (ap Stage.ended (some_inj f first h))
stage_of_terminal (closed f) first h = inr (ap Stage.closed (some_inj f first h))
