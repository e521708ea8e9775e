-- ===== src/Tests/Delays.antt =====
-- Operations that waited, and the theorems on the attribution of waits at them.
use session_pressure.Waits.Shares.{by_cause_total}
use session_pressure.Common.Int.{pos}
use session_pressure.Tests.Rows.{row}
use session_pressure.Waits.Bursts.{Apart, burst_waits, burst_operations, all_bursts_lem}
use session_pressure.Events.{capacity, no_dimension, swap, acquired}
use session_pressure.Common.{
  List, sum_of, ◌∷◌, map, ◌≡◌, false, [], length, refl, max, keep_if, ◌+◌,
}
use session_pressure.Waits.{
  WaitOperation, causes, gather_all, known_parts, gather, by_cause, wait_total,
}
use session_pressure.Waits.LongWaits.{all_bursts, burst_from, add_burst, total_wait, is_long}

-- The rows name more than the recorded wait.
abbrev queued_build : WaitOperation
queued_build = record {
  id = 5;
  start = 1_000;
  queue_ms = 200_000;
  admission_ms = 500;
  pressure_ms = 0;
  flight_ms = 0;
  total_ms = 150_000;
  queue_blocker = capacity;
  dimension = no_dimension;
  swap_deferred = false;
}

abbrev waiters : List WaitOperation
waiters =
    queued_build
    ∷ record queued_build {
      id = 6;
      start = 2_000_000_000_000;
      pressure_ms = 300_000;
      dimension = swap;
    }
    ∷ record queued_build { id = 7; queue_ms = 10; total_ms = 20 }
    ∷ []

more_than_recorded : wait_total queued_build ≡ 200_500
unfolding causes known_parts
more_than_recorded = refl

gathered_wait :
    map wait_total
      (gather_all [] (record row { event = acquired; queue_wait_ms = pos 40 } ∷ row ∷ []))
    ≡ 40 ∷ []
unfolding gather_all gather causes known_parts
gathered_wait = refl

two_bursts : length (all_bursts waiters) ≡ 2
unfolding all_bursts burst_from add_burst causes known_parts session_pressure.Common.sort_by
two_bursts = refl

by_cause_total_example :
    (sum_of (λ r. r.wait) (by_cause waiters) ≡ total_wait waiters)
    × (total_wait waiters
        ≡ sum_of
            (λ o. max o.total_ms (o.queue_ms + o.admission_ms + o.pressure_ms + o.flight_ms))
            waiters)
by_cause_total_example = by_cause_total waiters

all_bursts_lem_example :
    let bs = all_bursts waiters in
    Apart bs
    × (burst_waits bs ≡ total_wait (keep_if is_long waiters))
    × (burst_operations bs ≡ length (keep_if is_long waiters))
all_bursts_lem_example = all_bursts_lem waiters
