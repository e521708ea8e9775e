-- ===== src/Replay/Loop.antt =====
-- The outer loop of replayPolicy in sessionpressure/workreplay.go.
use session_pressure.Common.{
  ℕ, Bool, Option, List, none, some, [], ◌∷◌, zero, suc, ◌+◌, ◌*◌, ◌++◌, ◌&&◌, ◌||◌, leb, ltb, ◌==◌,
  if◌then◌else◌, is_empty, length, keep_if, sum_of,
}
use session_pressure.Replay.{Job, ReplayMode, Running, Sim, Tally, drain}

abbrev pub is_running_after : ℕ → Running → Bool
is_running_after now r = ltb now r.finish_at

abbrev pub used_by : List Running → ℕ
used_by = sum_of (λ r. r.job.weight)

unfoldable pub due_jobs : ℕ → List Job → List Job
due_jobs now [] = []
due_jobs now (j ∷ js) = let more = due_jobs now js in if leb j.queued_at now then j ∷ more else []

unfoldable pub later_jobs : ℕ → List Job → List Job
later_jobs now [] = []
later_jobs now (j ∷ js) =
    let more = later_jobs now js in if leb j.queued_at now then more else j ∷ js

-- The finished jobs leave, and the jobs that are due join the queue.
unfoldable pub arrive : Sim → Sim
unfolding due_jobs later_jobs
arrive s =
    let kept = keep_if (is_running_after s.now) s.running in
    record s {
      running = kept;
      used = used_by kept;
      queue = s.queue ++ due_jobs s.now s.arrivals;
      arrivals = later_jobs s.now s.arrivals;
    }

abbrev pub first_arrival : List Job → ℕ
first_arrival [] = 0
first_arrival (j ∷ js) = j.queued_at

-- The earliest end of a running job, from the time that was found so far; 0 is the zero time.
unfoldable pub earliest : ℕ → List Running → ℕ
earliest t [] = t
earliest t (r ∷ rs) = earliest (if t == 0 || ltb r.finish_at t then r.finish_at else t) rs

unfoldable pub next_time : Sim → ℕ
unfolding earliest
next_time s =
    let t = earliest (first_arrival s.arrivals) s.running in
    if ltb s.now t then t else s.now + 1_000_000

abbrev pub is_over : Sim → Bool
is_over s = is_empty s.arrivals && is_empty s.queue && is_empty s.running

-- One round of the outer loop up to its break.
unfoldable pub pass : ReplayMode → ℕ → Sim → Sim
unfolding drain arrive
pass mode capacity s = let a = arrive s in drain mode capacity (length a.queue) a

abbrev pub is_stuck : Sim → Bool
is_stuck s = is_empty s.arrivals && is_empty s.running

unfoldable pub run : ReplayMode → ℕ → ℕ → Sim → Option Sim
unfolding pass next_time
run mode capacity zero s = if is_over s then some s else none
run mode capacity (suc n) s =
    if is_over s
    then some s
    else let p = pass mode capacity s in
      let rest = run mode capacity n (record p { now = next_time p }) in
      if is_stuck p then some p else rest

abbrev pub empty_tally : Tally
empty_tally = record {
  contention_decisions = 0;
  short_runtime_long_wait = 0;
  maximum_seen = 0;
  capacity_violations = 0;
  protected_violations = 0;
  waits = [];
}

abbrev pub start_of : List Job → Sim
start_of jobs = record {
  queue = [];
  running = [];
  used = 0;
  arrivals = jobs;
  now = first_arrival jobs;
  tally = empty_tally;
}

abbrev pub tally_of : Option Sim → Option Tally
tally_of none = none
tally_of (some s) = some s.tally

-- `none` would be a loop that is still running after three rounds for each job.
unfoldable pub replay_policy : ReplayMode → ℕ → List Job → Option Tally
unfolding run
replay_policy mode capacity jobs = tally_of (run mode capacity (3 * length jobs) (start_of jobs))
