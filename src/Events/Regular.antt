-- ===== src/Events/Regular.antt =====
-- The validator of sessionpressure/workevent.go refines the stages of an operation.
use session_pressure.Events.Advances.{
  queued_step, acquired_step, reserved_step, reacquired_step, started_step, annotated_step,
}
use session_pressure.Events.Endings.{terminal_step}
use session_pressure.Events.Independence.{
  is_refused, follow_all, rows_of, all_follow, follow_all_first,
}
use session_pressure.Events.Rows.{Followed, follow-Followed}
use session_pressure.Common.{Option, ℕ, ◌≡◌, false, subst, some, refl, none, sym, List, ◌∷◌, []}
use session_pressure.Events.Stages.{Stage, At, Step, at_start, History}
use session_pressure.Events.Lifecycle.{Lifecycle, follow, new_lifecycle, current, accepted}
use session_pressure.Events.Readers.{validate_lifecycle}
use session_pressure.Events.{
  WorkEventType, WorkEvent, override_requested, queued, acquired, reserved, reacquired, started,
  completed, expired, failed, cancelled, reused,
}

module _ (a : Stage) (s r : Lifecycle) (e : WorkEvent) (at : At a s) where
  stage_step :
      (t : WorkEventType) → Followed t s r e → e.event ≡ t → (b : Stage) × Step a e b × At b r
  stage_step queued f q = queued_step a s r e at f q
  stage_step acquired f q = acquired_step a s r e at f q
  stage_step reserved f q = reserved_step a s r e at f q
  stage_step reacquired f q = reacquired_step a s r e at f q
  stage_step started f q = started_step a s r e at f q
  stage_step completed f q = terminal_step a s r e at completed refl f q f.closed_as
  stage_step failed f q = terminal_step a s r e at failed refl f q f.closed_as
  stage_step cancelled f q = terminal_step a s r e at cancelled refl f q f.closed_as
  stage_step expired f q = terminal_step a s r e at expired refl f q f.closed_as
  stage_step reused f q = terminal_step a s r e at reused refl f q f.closed_as
  stage_step override_requested f q = annotated_step a s r e at f q

-- Every row that the validator accepts is a step of the stages.
pub follow_step :
    (a : Stage) (s r : Lifecycle) (e : WorkEvent)
    → At a s
    → follow s e ≡ accepted r
    → (b : Stage) × Step a e b × At b r
follow_step a s r e at h = stage_step a s r e at e.event (follow-Followed s r e h) refl

-- The stage of an operation that may be new.
abbrev pub AtOption : Stage → Option Lifecycle → Type 0
AtOption a none = a ≡ at_start
AtOption a (some s) = At a s

At-new_lifecycle : (e : WorkEvent) → At at_start (new_lifecycle e)
At-new_lifecycle e = record { order = refl; holding = refl; marks = tt; end = refl }

AtOption-current :
    (a : Stage) (o : Option Lifecycle) (e : WorkEvent) → AtOption a o → At a (current o e)
AtOption-current a none e h =
    subst (λ (x : Stage). At x (new_lifecycle e)) (sym h) (At-new_lifecycle e)
AtOption-current a (some s) e h = h

follow_all_path :
    (a : Stage) (o : Option Lifecycle) (rows : List WorkEvent)
    → AtOption a o
    → is_refused (follow_all o rows) ≡ false
    → (b : Stage) × History a rows b
follow_all_path a o [] at h = (a, History.done a)
follow_all_path a o (e ∷ rows) at h =
    let (s, f, rest) = follow_all_first o e rows h in
    let (b, step, at_b) = follow_step a (current o e) s e (AtOption-current a o e at) f in
    let (c, path) = follow_all_path b (some s) rows at_b rest in
    (c, History.then_row a b c e rows step path)

-- If a history of rows passes the validation, then the rows of each operation go through its stages,
-- from the start: at most one acquisition, pressure reservations that are each taken back before the
-- next, at most one start and one end, and after the end at most one more row, which is a
-- reconciler's expiration after a real outcome, or the late real outcome after such an expiration.
pub validate_lifecycle-History :
    (rows : List WorkEvent) (op : ℕ)
    → validate_lifecycle rows ≡ none
    → (b : Stage) × History at_start (rows_of op rows) b
validate_lifecycle-History rows op h =
    follow_all_path at_start none (rows_of op rows) refl (all_follow rows op h)
