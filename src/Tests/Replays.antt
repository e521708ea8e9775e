-- ===== src/Tests/Replays.antt =====
-- Replays of recorded work, and the theorems on replays at them.
use session_pressure.Replay.Comparison.{replay_events_serves}
use session_pressure.Replay.Completion.{replay_policy_serves}
use session_pressure.Replay.Progress.{replay_policy_ends}
use session_pressure.Replay.Gates.{Gates}
use session_pressure.Common.Int.{pos}
use session_pressure.Replay.Frames.{keys_of}
use session_pressure.Tests.Rows.{row}
use session_pressure.Replay.Trace.{replay_events, replay_jobs, safety_gates_pass}
use session_pressure.Replay.Accounts.{InRange}
use session_pressure.Events.{WorkEvent, completed, failed}
use session_pressure.Limits.{build, test, default_work_limits}
use session_pressure.Common.{
  List, Option, All, ◌∷◌, ℕ, none, [], ◌*◌, ◌≡◌, some, length, arith, map, true, refl,
}
use session_pressure.Replay.{
  Job, Sim, Tally, replay_candidate, drain, round, choose_place, settle_choice, charge_passed,
  place_fitting, replay_fifo,
}
use session_pressure.Replay.Loop.{
  replay_policy, run, pass, start_of, arrive, due_jobs, later_jobs, next_time, earliest,
}

abbrev long_job : Job
long_job = record {
  id = 21;
  class = build;
  weight = 3;
  queued_at = 1_000_000;
  runtime = 90_000_000_000;
  bypasses = 0;
  last_bypassed_at = none;
  protected_at = none;
}

-- A wide job waits behind a long one; a small one fits beside it.
abbrev three_jobs : List Job
three_jobs =
    long_job
    ∷ record long_job { id = 22; weight = 4; queued_at = 2_000_000 }
    ∷ record long_job {
      id = 23;
      class = test;
      weight = 1;
      queued_at = 3_000_000;
      runtime = 5_000_000;
    }
    ∷ []

abbrev replayed_rows : List WorkEvent
replayed_rows =
    row
    ∷ record row { operation_id = 6; timestamp = 900; weight = pos 1 }
    ∷ record row { event = completed; timestamp = 4_000; runtime_ms = pos 50 }
    ∷ record row { event = failed; operation_id = 6; timestamp = 5_000; runtime_ms = pos 20 }
    ∷ []

abbrev waits_of : Option Tally → List ℕ
waits_of none = []
waits_of (some t) = map (λ w. w.1) t.waits

fifo_waits : waits_of (replay_policy replay_fifo 4 three_jobs) ≡ 0 ∷ 89_999 ∷ 179_998 ∷ []
unfolding replay_policy run pass drain round choose_place settle_choice charge_passed arrive
    due_jobs later_jobs next_time earliest place_fitting
fifo_waits = refl

replay_policy_ends_example :
    (s : Sim) × (run replay_candidate 4 (3 * length three_jobs) (start_of three_jobs) ≡ some s)
    × (replay_policy replay_candidate 4 three_jobs ≡ some s.tally)
replay_policy_ends_example = replay_policy_ends replay_candidate 4 three_jobs

three_jobs_range : All (InRange 4) (keys_of three_jobs)
three_jobs_range =
    ((omega arith, omega arith), ((omega arith, omega arith), ((omega arith, omega arith), tt)))

replay_policy_serves_example :
    (t : Tally) × (replay_policy replay_candidate 4 three_jobs ≡ some t)
    × (length t.waits ≡ 3)
    × Gates t
replay_policy_serves_example =
    replay_policy_serves replay_candidate 4 three_jobs three_jobs_range (refl, (refl, (refl, tt)))

replay_events_serves_example :
    (t : Tally) × (replay_events replay_candidate 10 (default_work_limits 10) replayed_rows
      ≡ some t)
    × (length t.waits ≡ length (replay_jobs 10 (default_work_limits 10) replayed_rows))
    × (safety_gates_pass t ≡ true)
replay_events_serves_example =
    replay_events_serves replay_candidate 10 (default_work_limits 10) replayed_rows
