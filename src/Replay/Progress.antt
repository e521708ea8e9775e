-- ===== src/Replay/Progress.antt =====
-- The loops of replayPolicy in sessionpressure/workreplay.go end: every pass of the outer loop moves
-- a job on, from the arrivals to the queue, from there to a start, and from there to its end.
use session_pressure.Replay.Clock.{Due, next_Due, due_at}
use session_pressure.Replay.Frames.{keys_of, round-cases}
use session_pressure.Common.{
  List, ℕ, ◌*◌, Bool, ◌≡◌, ◌+◌, ◌≤◌, length, false, arith, Any, inl, ◌⊎◌, is_empty, ◌∷◌, sym, some,
  true, inr, suc, keep_if, length-append, ap, [], ◌∙◌, Bool-cases, length-keep_if_le, zero, refl,
}
use session_pressure.Replay.{Sim, ReplayMode, drain, Job, round, Running, job_at, drop_at}
use session_pressure.Replay.Loop.{
  due_jobs, arrive, pass, next_time, later_jobs, is_stuck, is_over, is_running_after, run, start_of,
  replay_policy,
}

abbrev pub pending : Sim → ℕ
pending s = 2 * length s.queue + length s.running

abbrev pub remaining : Sim → ℕ
remaining s = 3 * length s.arrivals + pending s

length-keys_of : (js : List Job) → length (keys_of js) ≡ length js
length-keys_of [] = refl
length-keys_of (j ∷ js) = ap suc (length-keys_of js)

pub same_length : (xs ys : List Job) → keys_of xs ≡ keys_of ys → length xs ≡ length ys
same_length xs ys h = sym (length-keys_of xs) ∙ ap length h ∙ length-keys_of ys

pub length-drop_at :
    (i : ℕ) (js : List Job) (j : Job) → job_at i js ≡ some j → length (drop_at i js) + 1 ≡ length js
length-drop_at i [] j h = cc
length-drop_at zero (x ∷ js) j h = omega arith
length-drop_at (suc i) (x ∷ js) j h = omega (arith, length-drop_at i js j h)

-- What a round does to the measure: it stops with the measure as it is, or it goes on below it, with
-- a shorter queue.
abbrev Lowers : Sim → Sim × Bool → Type 0
Lowers s r =
    (r.0.arrivals ≡ s.arrivals)
    × (r.0.now ≡ s.now)
    × (((r.1 ≡ false) × (pending r.0 ≡ pending s))
        ⊎ ((r.1 ≡ true) × (pending r.0 + 1 ≡ pending s) × (length r.0.queue + 1 ≡ length s.queue)))

pub round-Lowers : (mode : ReplayMode) (capacity : ℕ) (s : Sim) → Lowers s (round mode capacity s)
round-Lowers mode capacity s = elim (round-cases mode capacity s) [
  | inl (b, f) ↦
      let q = same_length _ _ f.queue_keys in
      let p : pending (round mode capacity s).0 ≡ pending s = rw (q, f.same_running) refl in
      (f.same_arrivals, f.same_now, inl (b, p))
  | inr (b, t, f, (i, j, at, low, q)) ↦
      let shorter = length-drop_at i t.queue j at in
      let same = same_length _ _ f.queue_keys in
      let run' = length-append t.running (record { job = j; finish_at = t.now + j.runtime } ∷ []) in
      let ran = ap length f.same_running in
      (
        ap (λ r. r.arrivals) q ∙ f.same_arrivals,
        ap (λ r. r.now) q ∙ f.same_now,
        inr (
          b,
          (rw q (omega (arith, shorter, same, run', ran))),
          (rw q (omega (arith, shorter, same))),
        ),
      )
]

pub drain-Lowers :
    (mode : ReplayMode) (capacity n : ℕ) (s : Sim)
    → let d = drain mode capacity n s in
      (d.arrivals ≡ s.arrivals) × (d.now ≡ s.now) × (pending d ≤ pending s)
unfolding drain
drain-Lowers mode capacity zero s = (refl, refl, omega arith)
drain-Lowers mode capacity (suc n) s = elim (Bool-cases (is_empty s.queue)) [
  | inl e ↦ rw e (refl, refl, omega arith)
  | inr e ↦
      let (arrivals, now, low) = round-Lowers mode capacity s in
      elim low [
        | inl (b, p) ↦ rw (e, b) (arrivals, now, (rw p (omega arith)))
        | inr (b, p, shorter) ↦
            let (arrivals', now', p') = drain-Lowers mode capacity n (round mode capacity s).0 in
            rw (e, b) (arrivals' ∙ arrivals, now' ∙ now, omega (arith, p, p'))
      ]
]

pub due_or_later :
    (now : ℕ) (js : List Job) → length (due_jobs now js) + length (later_jobs now js) ≡ length js
unfolding due_jobs later_jobs
due_or_later now [] = refl
due_or_later now (j ∷ js) = ground (arith, due_or_later now js)

ended_leaves :
    (now : ℕ) (rs : List Running)
    → Any (λ r. r.finish_at ≤ now) rs
    → length (keep_if (is_running_after now) rs) + 1 ≤ length rs
ended_leaves now [] h = elim h [ ]
ended_leaves now (r ∷ rs) (inl h) =
    let low = length-keep_if_le (is_running_after now) rs in ground arith
ended_leaves now (r ∷ rs) (inr h) = ground (arith, ended_leaves now rs h)

arrive_lowers : (s : Sim) → Due s → remaining (arrive s) + 1 ≤ remaining s
unfolding arrive
arrive_lowers s (inl h) =
    let split = due_or_later s.now s.arrivals in
    let joined = length-append s.queue (due_jobs s.now s.arrivals) in
    let kept = length-keep_if_le (is_running_after s.now) s.running in
    let some_due : 1 ≤ length (due_jobs s.now s.arrivals) = ground arith in omega arith
arrive_lowers s (inr h) =
    let split = due_or_later s.now s.arrivals in
    let joined = length-append s.queue (due_jobs s.now s.arrivals) in
    let kept = ended_leaves s.now s.running h in omega arith

pass_lowers :
    (mode : ReplayMode) (capacity : ℕ) (s : Sim)
    → Due s
    → remaining (pass mode capacity s) + 1 ≤ remaining s
unfolding pass
pass_lowers mode capacity s due =
    let a = arrive s in
    let (arrivals, now, low) = drain-Lowers mode capacity (length a.queue) a in
    let same = ap length arrivals in omega (arith, arrive_lowers s due, same, low)

pub no_jobs : (js : List Job) → length js ≤ 0 → is_empty js ≡ true
no_jobs [] h = refl
no_jobs (j ∷ js) h = ground arith

none_running : (rs : List Running) → length rs ≤ 0 → is_empty rs ≡ true
none_running [] h = refl
none_running (r ∷ rs) h = ground arith

nothing_left : (s : Sim) → remaining s ≤ 0 → is_over s ≡ true
nothing_left s h =
    rw
      (
        no_jobs s.arrivals (omega arith),
        no_jobs s.queue (omega arith),
        none_running s.running (omega arith),
      )
      refl

-- Enough fuel, with something to do at each pass.
run_ends :
    (mode : ReplayMode) (capacity n : ℕ) (s : Sim)
    → remaining s ≤ n
    → (is_over s ≡ true) ⊎ Due s
    → (r : Sim) × (run mode capacity n s ≡ some r)
unfolding run
run_ends mode capacity zero s low d = (s, (rw (nothing_left s low) refl))
run_ends mode capacity (suc n) s low (inl over) = (s, (rw over refl))
run_ends mode capacity (suc n) s low (inr due) = elim (Bool-cases (is_over s)) [
  | inl over ↦ (s, (rw over refl))
  | inr left ↦
      let p = pass mode capacity s in
      let lower = pass_lowers mode capacity s due in
      elim (Bool-cases (is_stuck p)) [
        | inl stuck ↦ (p, (rw (left, stuck) refl))
        | inr more ↦
            let next : Sim = record p { now = next_time p } in
            let (r, q) =
              run_ends mode capacity n next (omega (arith, lower, low))
                (inr (next_Due p p.arrivals refl more)) in
            (r, (rw (left, more) q))
      ]
]

start-Due : (jobs : List Job) → (is_over (start_of jobs) ≡ true) ⊎ Due (start_of jobs)
start-Due [] = inl refl
start-Due (j ∷ js) = inr (inl (due_at j.queued_at j js (omega arith)))

-- The replay ends, for any jobs in any order, under each selection, and whatever the capacity: three
-- passes of the outer loop for each job are enough.
pub replay_policy_ends :
    (mode : ReplayMode) (capacity : ℕ) (jobs : List Job)
    → (s : Sim) × (run mode capacity (3 * length jobs) (start_of jobs) ≡ some s)
      × (replay_policy mode capacity jobs ≡ some s.tally)
unfolding replay_policy
replay_policy_ends mode capacity jobs =
    let (s, q) =
      run_ends mode capacity (3 * length jobs) (start_of jobs) (omega arith) (start-Due jobs) in
    (s, q, (rw q refl))
