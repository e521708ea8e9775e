-- ===== src/Replay/Trace.antt =====
-- The jobs that a replay takes from a history, and the gates that compare its policies:
-- ReplayWorkEvents, reweightReplayJobs and closesReplayGap of sessionpressure/workreplay.go.
--
-- The map by operation is a list in the order of first appearance; the jobs are sorted afterwards.
use session_pressure.Common.Int.{pos_part}
use session_pressure.Ledger.Select.{maximum_bypasses}
use session_pressure.Events.Lifecycle.{is_terminal_event}
use session_pressure.Limits.{WorkLimits, weight, normalize_work_limits}
use session_pressure.Events.{WorkEvent, WorkEventType, same_type, queued, expired}
use session_pressure.Common.{
  ℕ, Option, if◌then◌else◌, Bool, List, max, none, true, ◌∷◌, false, ◌&&◌, ◌==◌, ◌*◌, map, leb,
  some, [], not, ltb, ◌+◌, ◌||◌, sort_by, ◌/◌, ◌-◌, keep_if,
}
use session_pressure.Replay.{Job, Tally, ReplayMode, replay_candidate}
use session_pressure.Replay.Loop.{replay_policy}

pub record TraceJob : Type 0 where
  pub job : Job
  pub terminal : Option WorkEventType

abbrev pub new_trace : ℕ → WorkLimits → WorkEvent → TraceJob
new_trace cpus limits e = record {
  job = record {
    id = e.operation_id;
    class = e.class;
    weight = weight cpus limits e.class;
    queued_at = 0;
    runtime = 0;
    bypasses = 0;
    last_bypassed_at = none;
    protected_at = none;
  };
  terminal = none;
}

-- The earliest time of queueing.
abbrev pub note_queued : WorkEvent → TraceJob → TraceJob
note_queued e t =
    if same_type e.event queued && (t.job.queued_at == 0 || ltb e.timestamp t.job.queued_at)
    then record t { job = record t.job { queued_at = e.timestamp } }
    else t

-- No outcome was seen yet, or only an expiration that this row corrects.
abbrev pub takes_outcome : WorkEventType → Option WorkEventType → Bool
takes_outcome t none = true
takes_outcome t (some old) = same_type old expired && not (same_type t expired)

abbrev pub note_terminal : WorkEvent → TraceJob → TraceJob
note_terminal e t =
    if is_terminal_event e.event && takes_outcome e.event t.terminal
    then record t {
      terminal = some e.event;
      job = record t.job { runtime = pos_part e.runtime_ms * 1_000_000 };
    }
    else t

abbrev pub note_row : WorkEvent → TraceJob → TraceJob
note_row e t = note_terminal e (note_queued e t)

unfoldable pub trace_row : ℕ → WorkLimits → WorkEvent → List TraceJob → List TraceJob
trace_row cpus limits e [] = note_row e (new_trace cpus limits e) ∷ []
trace_row cpus limits e (t ∷ ts) =
    let rest = trace_row cpus limits e ts in
    if t.job.id == e.operation_id then note_row e t ∷ ts else t ∷ rest

unfoldable pub trace_rows : ℕ → WorkLimits → List TraceJob → List WorkEvent → List TraceJob
unfolding trace_row
trace_rows cpus limits ts [] = ts
trace_rows cpus limits ts (e ∷ rows) = trace_rows cpus limits (trace_row cpus limits e ts) rows

abbrev pub has_outcome : Option WorkEventType → Bool
has_outcome none = false
has_outcome (some t) = not (same_type t expired)

-- The operations that can be replayed.
abbrev pub is_replayable : ℕ → TraceJob → Bool
is_replayable capacity t =
    has_outcome t.terminal
    && not (t.job.runtime == 0)
    && not (t.job.queued_at == 0)
    && leb 1 t.job.weight
    && leb t.job.weight capacity

abbrev pub queued_earlier : Job → Job → Bool
queued_earlier i j =
    if i.queued_at == j.queued_at then ltb i.id j.id else ltb i.queued_at j.queued_at

unfoldable pub replay_jobs : ℕ → WorkLimits → List WorkEvent → List Job
unfolding trace_rows
replay_jobs cpus raw rows =
    let limits = normalize_work_limits cpus raw in
    let traces = trace_rows cpus limits [] rows in
    sort_by queued_earlier (map (λ t. t.job) (keep_if (is_replayable limits.capacity) traces))

-- The replay of a history under one selection, with the limits of the host.
unfoldable pub replay_events : ReplayMode → ℕ → WorkLimits → List WorkEvent → Option Tally
unfolding replay_policy replay_jobs
replay_events mode cpus raw rows =
    replay_policy mode (normalize_work_limits cpus raw).capacity (replay_jobs cpus raw rows)

abbrev pub legacy_limits : WorkLimits → WorkLimits
legacy_limits limits = record limits { build_weight = max 1 ((limits.capacity * 2 + 2) / 3) }

abbrev pub reweight_job : ℕ → WorkLimits → Job → Job
reweight_job cpus limits j = record j { weight = weight cpus limits j.class }

abbrev pub reweight_jobs : ℕ → WorkLimits → List Job → List Job
reweight_jobs cpus limits jobs = map (reweight_job cpus limits) jobs

-- The replay with the build weight of an earlier calibration.
unfoldable pub replay_legacy : ℕ → WorkLimits → List WorkEvent → Option Tally
unfolding replay_policy replay_jobs
replay_legacy cpus raw rows =
    let limits = normalize_work_limits cpus raw in
    replay_policy replay_candidate limits.capacity
      (reweight_jobs cpus (legacy_limits limits) (replay_jobs cpus raw rows))

-- The comparison's gate on safety.
abbrev pub safety_gates_pass : Tally → Bool
safety_gates_pass t =
    t.capacity_violations == 0 && t.protected_violations == 0 && leb t.maximum_seen maximum_bypasses

abbrev pub minimum_sample_met : ℕ → Tally → Bool
minimum_sample_met operations t = leb 100 operations && leb 20 t.contention_decisions

-- The candidate closes the required share of the gap between the baseline and the floor.
unfoldable pub closes_replay_gap : ℕ → ℕ → ℕ → ℕ → Bool
closes_replay_gap baseline candidate floor required =
    if leb baseline floor || baseline == 0
    then leb candidate baseline
    else ltb candidate baseline
      && leb ((baseline - floor) * required) ((baseline - candidate) * 100)
