-- ===== src/Replay/Comparison.antt =====
-- The replays of ReplayWorkEvents in sessionpressure/workreplay.go meet the conditions of the loop.
use session_pressure.Replay.Completion.{replay_policy_serves}
use session_pressure.Replay.Gates.{Gates}
use mathlib.Core.List.Perm
use session_pressure.Events.Lifecycle.{is_terminal_event}
use session_pressure.Replay.Frames.{keys_of, key_of}
use session_pressure.Replay.Accounts.{ids_of, InRange}
use session_pressure.Replay.{Job, Tally, ReplayMode}
use session_pressure.Limits.{WorkLimits, normalize_work_limits}
use session_pressure.Replay.Trace.{
  trace_row, trace_rows, TraceJob, note_queued, note_terminal, note_row, new_trace, is_replayable,
  takes_outcome, replay_jobs, replay_events, safety_gates_pass, queued_earlier,
}
use session_pressure.Events.{WorkEvent, same_type, queued}
use session_pressure.Common.{
  List, ℕ, map, contains, Distinct, All, ◌≡◌, ◌∷◌, Bool-cases, ◌∙◌, ◌==◌, [], ap, ◌||◌, inl,
  keep_if, refl, ◌&&◌, inr, ltb, ==→eq, arith, sort_by, some, true, length, All-sort_by,
  Distinct-sublist, map-keep_if-sublist, subst, sym, Distinct-perm, sort_by-perm,
}

abbrev trace_ids : List TraceJob → List ℕ
trace_ids ts = map (λ t. t.job.id) ts

note_queued_key :
    (e : WorkEvent) (t : TraceJob)
    → ((note_queued e t).job.id ≡ t.job.id) × ((note_queued e t).job.weight ≡ t.job.weight)
note_queued_key e t =
    elim (Bool-cases
      (same_type e.event queued && (t.job.queued_at == 0 || ltb e.timestamp t.job.queued_at))) [
        | inl b ↦ rw b (refl, refl)
        | inr b ↦ rw b (refl, refl)
      ]

note_terminal_key : (e : WorkEvent) (t : TraceJob) → (note_terminal e t).job.id ≡ t.job.id
note_terminal_key e t =
    elim (Bool-cases (is_terminal_event e.event && takes_outcome e.event t.terminal)) [
      | inl b ↦ rw b refl
      | inr b ↦ rw b refl
    ]

note_row_id : (e : WorkEvent) (t : TraceJob) → (note_row e t).job.id ≡ t.job.id
note_row_id e t = note_terminal_key e (note_queued e t) ∙ (note_queued_key e t).0

contains-trace_row :
    (cpus : ℕ) (limits : WorkLimits) (e : WorkEvent) (x : ℕ) (ts : List TraceJob)
    → contains x (trace_ids (trace_row cpus limits e ts))
      ≡ (x == e.operation_id || contains x (trace_ids ts))
unfolding trace_row
contains-trace_row cpus limits e x [] = let q = note_row_id e (new_trace cpus limits e) in rw q refl
contains-trace_row cpus limits e x (t ∷ ts) = elim (Bool-cases (t.job.id == e.operation_id)) [
  | inl b ↦
      let same = ==→eq t.job.id e.operation_id b in
      let q = note_row_id e t ∙ same in rw (b, q, same) (ground arith)
  | inr b ↦ rw b (ground (arith, contains-trace_row cpus limits e x ts))
]

Distinct-trace_row :
    (cpus : ℕ) (limits : WorkLimits) (e : WorkEvent) (ts : List TraceJob)
    → Distinct (trace_ids ts)
    → Distinct (trace_ids (trace_row cpus limits e ts))
unfolding trace_row
Distinct-trace_row cpus limits e [] d = (refl, tt)
Distinct-trace_row cpus limits e (t ∷ ts) d = elim (Bool-cases (t.job.id == e.operation_id)) [
  | inl b ↦ rw (b, note_row_id e t) d
  | inr b ↦ rw b (
    (contains-trace_row cpus limits e t.job.id ts ∙ (ground (arith, b, d.0))),
    Distinct-trace_row cpus limits e ts d.1,
  )
]

Distinct-trace_rows :
    (cpus : ℕ) (limits : WorkLimits) (ts : List TraceJob) (rows : List WorkEvent)
    → Distinct (trace_ids ts)
    → Distinct (trace_ids (trace_rows cpus limits ts rows))
unfolding trace_rows
Distinct-trace_rows cpus limits ts [] d = d
Distinct-trace_rows cpus limits ts (e ∷ rows) d =
    Distinct-trace_rows cpus limits (trace_row cpus limits e ts) rows
      (Distinct-trace_row cpus limits e ts d)

replayable_range :
    (capacity : ℕ) (ts : List TraceJob)
    → All
        (λ (j : Job). InRange capacity (key_of j))
        (map (λ t. t.job) (keep_if (is_replayable capacity) ts))
replayable_range capacity [] = tt
replayable_range capacity (t ∷ ts) = elim (Bool-cases (is_replayable capacity t)) [
  | inl b ↦ rw b ((ground arith, ground arith), replayable_range capacity ts)
  | inr b ↦ rw b (replayable_range capacity ts)
]

All-keys_of :
    (capacity : ℕ) (js : List Job)
    → All (λ (j : Job). InRange capacity (key_of j)) js
    → All (InRange capacity) (keys_of js)
All-keys_of capacity [] a = tt
All-keys_of capacity (j ∷ js) a = (a.0, All-keys_of capacity js a.1)

ids-keys_of : (js : List Job) → ids_of (keys_of js) ≡ map (λ j. j.id) js
ids-keys_of [] = refl
ids-keys_of (j ∷ js) = ap (λ r. j.id ∷ r) (ids-keys_of js)

ids-jobs : (ts : List TraceJob) → map (λ (j : Job). j.id) (map (λ t. t.job) ts) ≡ trace_ids ts
ids-jobs [] = refl
ids-jobs (t ∷ ts) = ap (λ r. t.job.id ∷ r) (ids-jobs ts)

module _ (cpus : ℕ) (raw : WorkLimits) (rows : List WorkEvent) where
  replay_jobs_range :
      All (InRange (normalize_work_limits cpus raw).capacity) (keys_of (replay_jobs cpus raw rows))
  unfolding replay_jobs
  replay_jobs_range =
      let limits = normalize_work_limits cpus raw in
      let traces = trace_rows cpus limits [] rows in
      let jobs = map (λ (t : TraceJob). t.job) (keep_if (is_replayable limits.capacity) traces) in
      All-keys_of limits.capacity (sort_by queued_earlier jobs) (
        All-sort_by queued_earlier (λ (j : Job). InRange limits.capacity (key_of j)) jobs
          (replayable_range limits.capacity traces))

  replay_jobs-Distinct : Distinct (ids_of (keys_of (replay_jobs cpus raw rows)))
  unfolding replay_jobs
  replay_jobs-Distinct =
      let limits = normalize_work_limits cpus raw in
      let traces = trace_rows cpus limits [] rows in
      let kept = keep_if (is_replayable limits.capacity) traces in
      let jobs = map (λ (t : TraceJob). t.job) kept in
      let sorted = sort_by queued_earlier jobs in
      let once : Distinct (trace_ids traces) = Distinct-trace_rows cpus limits [] rows tt in
      let kept_once : Distinct (trace_ids kept) =
        Distinct-sublist (trace_ids kept) (trace_ids traces)
          (map-keep_if-sublist (λ (t : TraceJob). t.job.id) (is_replayable limits.capacity) traces)
          once in
      let jobs_once : Distinct (map (λ (j : Job). j.id) jobs) =
        subst Distinct (sym (ids-jobs kept)) kept_once in
      let sorted_once : Distinct (map (λ (j : Job). j.id) sorted) =
        Distinct-perm (map (λ (j : Job). j.id) sorted) (map (λ (j : Job). j.id) jobs)
          (Perm.map (λ (j : Job). j.id) (sort_by-perm queued_earlier jobs)) jobs_once in
      subst Distinct (sym (ids-keys_of sorted)) sorted_once

safe_tally : (t : Tally) → Gates t → safety_gates_pass t ≡ true
safe_tally t g =
    rw (g.capacity_kept, g.protection_kept) (let bound = g.passes_bounded in ground arith)

-- For any history and any limits, the replay of its operations ends under each selection with every
-- replayed operation started, and the safety gate of the comparison passes.
pub replay_events_serves :
    (mode : ReplayMode) (cpus : ℕ) (raw : WorkLimits) (rows : List WorkEvent)
    → (t : Tally) × (replay_events mode cpus raw rows ≡ some t)
      × (length t.waits ≡ length (replay_jobs cpus raw rows))
      × (safety_gates_pass t ≡ true)
unfolding replay_events
replay_events_serves mode cpus raw rows =
    let (t, ends, all, gates) =
      replay_policy_serves mode (normalize_work_limits cpus raw).capacity
        (replay_jobs cpus raw rows) (replay_jobs_range cpus raw rows)
        (replay_jobs-Distinct cpus raw rows) in
    (t, ends, all, safe_tally t gates)
