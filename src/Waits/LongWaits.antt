-- ===== src/Waits/LongWaits.antt =====
-- The bursts of long waits of summarizeWaitAttribution in sessionpressure/workwaitattribution.go.
use session_pressure.Common.{
  ℕ, Bool, List, [], ◌∷◌, ◌+◌, ◌*◌, max, map, take, ◌++◌, leb, ltb, if◌then◌else◌, keep_if, sum_of,
  sort_by,
}
use session_pressure.Waits.{
  Parts, WaitCause, WaitOperation, all_causes, cause_other, causes, long_wait_ms, wait_burst_gap,
  wait_burst_limit, wait_of, wait_total,
}

pub record LongWait : Type 0 where
  pub start : ℕ
  pub end : ℕ
  pub wait : ℕ
  pub causes : Parts

abbrev pub as_long_wait : WaitOperation → LongWait
as_long_wait o = record {
  start = o.start;
  end = o.start + wait_total o * 1_000_000;
  wait = wait_total o;
  causes = causes o;
}

abbrev pub is_long : WaitOperation → Bool
is_long o = leb long_wait_ms (wait_total o)

abbrev pub starts_before : LongWait → LongWait → Bool
starts_before a b = ltb a.start b.start

pub record Burst : Type 0 where
  pub start : ℕ
  pub end : ℕ
  pub operations : ℕ
  pub wait : ℕ
  pub longest : ℕ
  pub causes : Parts

abbrev pub new_burst : LongWait → Burst
new_burst w = record {
  start = w.start;
  end = w.end;
  operations = 0;
  wait = 0;
  longest = 0;
  causes = [];
}

abbrev pub join_burst : LongWait → Burst → Burst
join_burst w b = record b {
  end = max b.end w.end;
  operations = b.operations + 1;
  wait = b.wait + w.wait;
  longest = max b.longest w.wait;
  causes = b.causes ++ w.causes;
}

-- The bursts so far, the last one first.
unfoldable pub add_burst : LongWait → List Burst → List Burst
add_burst w [] = join_burst w (new_burst w) ∷ []
add_burst w (b ∷ bs) =
    if ltb (b.end + wait_burst_gap) w.start
    then join_burst w (new_burst w) ∷ b ∷ bs
    else join_burst w b ∷ bs

unfoldable pub burst_from : List Burst → List LongWait → List Burst
unfolding add_burst
burst_from bs [] = bs
burst_from bs (w ∷ ws) = burst_from (add_burst w bs) ws

-- All bursts; the source keeps the newest of them.
unfoldable pub all_bursts : List WaitOperation → List Burst
unfolding burst_from causes
all_bursts os = burst_from [] (sort_by starts_before (map as_long_wait (keep_if is_long os)))

unfoldable pub long_wait_bursts : List WaitOperation → List Burst
unfolding all_bursts
long_wait_bursts os = take wait_burst_limit (all_bursts os)

-- The cause of the largest wait, the first in the order of texts among equals.
unfoldable pub dominant_from : WaitCause → Parts → List WaitCause → WaitCause
dominant_from best parts [] = best
dominant_from best parts (c ∷ cs) =
    dominant_from (if ltb (wait_of best parts) (wait_of c parts) then c else best) parts cs

abbrev pub dominant_cause : Parts → WaitCause
dominant_cause parts = dominant_from cause_other parts all_causes

abbrev pub total_wait : List WaitOperation → ℕ
total_wait = sum_of wait_total

abbrev pub waiting_operations : List WaitOperation → ℕ
waiting_operations = sum_of (λ o. if ltb 0 (wait_total o) then 1 else 0)
