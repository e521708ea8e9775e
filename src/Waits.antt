-- ===== src/Waits.antt =====
-- Why operations waited: summarizeWaitAttribution and causes of
-- sessionpressure/workwaitattribution.go.
--
-- Waits are numbers of milliseconds, and times of nanoseconds; a negative one in a row counts as 0, since the source takes a
-- maximum that begins at 0. A map from causes to waits is the list of its increments, and the entry
-- of a cause is their sum. Shares, which are quotients of floating point, are left out.
pub mod LongWaits
pub mod Bursts
pub mod Shares
use session_pressure.Common.{
  ℕ, Bool, List, [], ◌∷◌, true, false, ◌+◌, ◌-◌, ◌*◌, max, min, map, take, ◌++◌, ◌&&◌, ◌||◌, leb,
  ltb, ◌==◌, if◌then◌else◌, keep_if, sum_of, sort_by,
}
use session_pressure.Common.Int.{pos_part}
use session_pressure.Events.{
  WorkEvent, WorkEventType, Blocker, PressureDimension, AdmissionNote, no_blocker, capacity,
  fairness, reservation, no_dimension, cpu, memory, storage, swap, acquired, reacquired,
  swap_thrash_deferred, other_note,
}

pub data WaitCause : Type 0 where
  cause_other pressure_cpu pressure_memory pressure_other pressure_storage : WaitCause
  pressure_swap queue_capacity queue_fairness queue_other queue_reservation : WaitCause
  singleflight : WaitCause

-- The place of a cause in the order of the texts.
abbrev pub cause_index : WaitCause → ℕ
cause_index cause_other = 0
cause_index pressure_cpu = 1
cause_index pressure_memory = 2
cause_index pressure_other = 3
cause_index pressure_storage = 4
cause_index pressure_swap = 5
cause_index queue_capacity = 6
cause_index queue_fairness = 7
cause_index queue_other = 8
cause_index queue_reservation = 9
cause_index singleflight = 10

abbrev pub all_causes : List WaitCause
all_causes =
    cause_other ∷ pressure_cpu ∷ pressure_memory ∷ pressure_other ∷ pressure_storage ∷ pressure_swap
    ∷ queue_capacity ∷ queue_fairness ∷ queue_other ∷ queue_reservation ∷ singleflight ∷ []

abbrev pub wait_burst_gap : ℕ
wait_burst_gap = 900_000_000_000

abbrev pub wait_burst_limit : ℕ
wait_burst_limit = 5

abbrev pub admission_overhead_ms : ℕ
admission_overhead_ms = 2_000

abbrev pub long_wait_ms : ℕ
long_wait_ms = 120_000

pub record WaitOperation : Type 0 where
  pub id : ℕ
  pub start : ℕ
  pub queue_ms : ℕ
  pub admission_ms : ℕ
  pub pressure_ms : ℕ
  pub flight_ms : ℕ
  pub total_ms : ℕ
  pub queue_blocker : Blocker
  pub dimension : PressureDimension
  pub swap_deferred : Bool

abbrev pub is_queue_blocker : Blocker → Bool
is_queue_blocker capacity = true
is_queue_blocker fairness = true
is_queue_blocker reservation = true
is_queue_blocker _ = false

abbrev pub is_unblocked : Blocker → Bool
is_unblocked no_blocker = true
is_unblocked _ = false

abbrev pub is_undimensioned : PressureDimension → Bool
is_undimensioned no_dimension = true
is_undimensioned _ = false

abbrev pub is_acquisition : WorkEventType → Bool
is_acquisition acquired = true
is_acquisition reacquired = true
is_acquisition _ = false

abbrev pub is_swap_deferral : AdmissionNote → Bool
is_swap_deferral swap_thrash_deferred = true
is_swap_deferral other_note = false

abbrev pub new_wait_operation : WorkEvent → WaitOperation
new_wait_operation e = record {
  id = e.operation_id;
  start = e.timestamp;
  queue_ms = 0;
  admission_ms = 0;
  pressure_ms = 0;
  flight_ms = 0;
  total_ms = 0;
  queue_blocker = no_blocker;
  dimension = no_dimension;
  swap_deferred = false;
}

abbrev pub note_wait : WorkEvent → WaitOperation → WaitOperation
note_wait e o = record o {
  start = min o.start e.timestamp;
  queue_ms = max o.queue_ms (pos_part e.queue_wait_ms);
  admission_ms = max o.admission_ms (pos_part e.admission_wait_ms);
  pressure_ms = max o.pressure_ms (pos_part e.pressure_wait_ms);
  flight_ms = max o.flight_ms (pos_part e.singleflight_wait_ms);
  total_ms = max o.total_ms (pos_part e.wait_ms);
  queue_blocker =
      if is_acquisition e.event && is_unblocked o.queue_blocker && is_queue_blocker e.blocker
      then e.blocker
      else o.queue_blocker;
  dimension = if is_undimensioned o.dimension then e.pressure_dimension else o.dimension;
  swap_deferred = o.swap_deferred || is_swap_deferral e.admission_decision;
}

-- One row, in the order of first appearance.
unfoldable pub gather : WorkEvent → List WaitOperation → List WaitOperation
gather e [] = note_wait e (new_wait_operation e) ∷ []
gather e (o ∷ os) =
    let rest = gather e os in if o.id == e.operation_id then note_wait e o ∷ os else o ∷ rest

unfoldable pub gather_all : List WaitOperation → List WorkEvent → List WaitOperation
unfolding gather
gather_all os [] = os
gather_all os (e ∷ rows) = gather_all (gather e os) rows

abbrev pub Parts : Type 0
Parts = List (WaitCause × ℕ)

abbrev pub parts_total : Parts → ℕ
parts_total = sum_of (λ p. p.1)

abbrev pub same_cause : WaitCause → WaitCause → Bool
same_cause a b = cause_index a == cause_index b

-- The entry of a cause.
abbrev pub wait_of : WaitCause → Parts → ℕ
wait_of c = sum_of (λ p. if same_cause p.0 c then p.1 else 0)

abbrev pub queue_cause : Blocker → WaitCause
queue_cause capacity = queue_capacity
queue_cause fairness = queue_fairness
queue_cause reservation = queue_reservation
queue_cause _ = queue_other

abbrev pub pressure_cause : PressureDimension → WaitCause
pressure_cause cpu = pressure_cpu
pressure_cause memory = pressure_memory
pressure_cause storage = pressure_storage
pressure_cause swap = pressure_swap
pressure_cause _ = pressure_other

abbrev pub gate_dimension : WaitOperation → PressureDimension
gate_dimension o = if is_undimensioned o.dimension && o.swap_deferred then swap else o.dimension

-- The admission sample, not a pressure wait.
abbrev pub is_overhead : WaitOperation → Bool
is_overhead o = is_undimensioned (gate_dimension o) && ltb o.admission_ms admission_overhead_ms

-- The parts that the rows name; an increment of 0 is none.
unfoldable pub known_parts : WaitOperation → Parts
known_parts o =
    let gate = pressure_cause (gate_dimension o) in
    if is_overhead o
    then (queue_cause o.queue_blocker, o.queue_ms)
      ∷ (cause_other, o.admission_ms)
      ∷ (gate, o.pressure_ms)
      ∷ (singleflight, o.flight_ms)
      ∷ []
    else (queue_cause o.queue_blocker, o.queue_ms)
      ∷ (gate, o.pressure_ms + o.admission_ms)
      ∷ (singleflight, o.flight_ms)
      ∷ []

-- The split of one operation's wait.
unfoldable pub causes : WaitOperation → Parts
unfolding known_parts
causes o = let parts = known_parts o in (cause_other, o.total_ms - parts_total parts) ∷ parts

abbrev pub wait_total : WaitOperation → ℕ
wait_total o = parts_total (causes o)

pub record CauseRow : Type 0 where
  pub cause : WaitCause
  pub wait : ℕ
  pub operations : ℕ

abbrev pub cause_row : List WaitOperation → WaitCause → CauseRow
cause_row os c = record {
  cause = c;
  wait = sum_of (λ o. wait_of c (causes o)) os;
  operations = sum_of (λ o. if ltb 0 (wait_of c (causes o)) then 1 else 0) os;
}

abbrev pub cause_before : CauseRow → CauseRow → Bool
cause_before a b =
    if a.wait == b.wait then ltb (cause_index a.cause) (cause_index b.cause) else ltb b.wait a.wait

abbrev pub has_wait : CauseRow → Bool
has_wait r = ltb 0 r.wait

unfoldable pub by_cause : List WaitOperation → List CauseRow
by_cause os = sort_by cause_before (keep_if has_wait (map (cause_row os) all_causes))
