-- ===== src/Replay/Accounts.antt =====
-- What the rounds of replayPolicy in sessionpressure/workreplay.go keep: the jobs stay distinct and
-- within the capacity, the weight in use is that of the running jobs, and no job is lost.
use mathlib.Core.List.Sublist
use session_pressure.Replay.Progress.{same_length, length-drop_at, due_or_later}
use mathlib.Core.List.{Sublist, map-append, append_assoc}
use session_pressure.Replay.Frames.{Frame, keys_of, round-cases, key_of}
use session_pressure.Replay.{
  Sim, Job, ReplayMode, drain, job_at, round, drop_at, start_job, Running, job_wait_ms,
}
use session_pressure.Replay.Loop.{due_jobs, arrive, pass, later_jobs, used_by}
use session_pressure.Common.{
  ℕ, List, ◌≤◌, map, All, suc, length, subst, ◌≡◌, ◌++◌, Bool-cases, Distinct, sym, some, inl, ◌∷◌,
  is_empty, ◌∙◌, [], inr, leb, ◌+◌, ap, zero, Distinct-sublist, refl, sum_of-append, All-append,
  arith, length-append, All-append_left, All-append_right,
}

-- A job weighs something, and no more than the capacity.
abbrev pub InRange : ℕ → ℕ × ℕ → Type 0
InRange capacity k = (1 ≤ k.1) × (k.1 ≤ capacity)

abbrev pub ids_of : List (ℕ × ℕ) → List ℕ
ids_of ks = map (λ k. k.0) ks

-- `total` is the number of jobs of the replay.
pub record Accounted (capacity total : ℕ) (s : Sim) : Type 0 where
  pub queue_in_range : All (InRange capacity) (keys_of s.queue)
  pub arrivals_in_range : All (InRange capacity) (keys_of s.arrivals)
  pub distinct : Distinct (ids_of (keys_of s.queue ++ keys_of s.arrivals))
  pub charged : s.used ≡ used_by s.running
  pub counted : length s.tally.waits + length s.queue + length s.arrivals ≡ total

module _ (capacity total : ℕ) where
  pub Accounted-Frame :
      (s r : Sim) → Frame s r → Accounted capacity total s → Accounted capacity total r
  Accounted-Frame s r f k = record {
    queue_in_range =
        subst (λ (q : List (ℕ × ℕ)). All (InRange capacity) q) (sym f.queue_keys) k.queue_in_range;
    arrivals_in_range =
        subst (λ (a : List Job). All (InRange capacity) (keys_of a)) (sym f.same_arrivals)
          k.arrivals_in_range;
    distinct = rw (f.queue_keys, f.same_arrivals) k.distinct;
    charged = f.same_used ∙ k.charged ∙ ap used_by (sym f.same_running);
    counted =
        let q = same_length r.queue s.queue f.queue_keys in
        rw (f.same_waits, q, f.same_arrivals) k.counted;
  }

  drop_at-All :
      (i : ℕ) (js : List Job)
      → All (InRange capacity) (keys_of js)
      → All (InRange capacity) (keys_of (drop_at i js))
  drop_at-All i [] a = tt
  drop_at-All zero (j ∷ js) a = a.1
  drop_at-All (suc i) (j ∷ js) a = (a.0, drop_at-All i js a.1)

  drop_at-sublist :
      (i : ℕ) (js : List Job) (ks : List (ℕ × ℕ))
      → Sublist (ids_of (keys_of (drop_at i js) ++ ks)) (ids_of (keys_of js ++ ks))
  drop_at-sublist i [] ks = Sublist.refl (ids_of ks)
  drop_at-sublist zero (j ∷ js) ks = Sublist.cons j.id (Sublist.refl (ids_of (keys_of js ++ ks)))
  drop_at-sublist (suc i) (j ∷ js) ks = Sublist.cons-cons j.id (drop_at-sublist i js ks)

  pub start_job-Accounted :
      (i : ℕ) (j : Job) (s : Sim)
      → job_at i s.queue ≡ some j
      → Accounted capacity total s
      → Accounted capacity total (start_job i j s)
  start_job-Accounted i j s at k = record {
    queue_in_range = drop_at-All i s.queue k.queue_in_range;
    arrivals_in_range = k.arrivals_in_range;
    distinct = Distinct-sublist _ _ (drop_at-sublist i s.queue (keys_of s.arrivals)) k.distinct;
    charged =
        let started : Running = record { job = j; finish_at = s.now + j.runtime } in
        let sum = sum_of-append (λ (r : Running). r.job.weight) s.running (started ∷ []) in
        omega (arith, k.charged, sum);
    counted =
        let more = length-append s.tally.waits ((j.class, job_wait_ms s.now j) ∷ []) in
        let less = length-drop_at i s.queue j at in omega (arith, more, less, k.counted);
  }

  pub round-Accounted :
      (mode : ReplayMode) (s : Sim)
      → Accounted capacity total s
      → Accounted capacity total (round mode capacity s).0
  round-Accounted mode s k = elim (round-cases mode capacity s) [
    | inl (b, f) ↦ Accounted-Frame s (round mode capacity s).0 f k
    | inr (b, t, f, (i, j, at, low, q)) ↦
        subst (λ (r : Sim). Accounted capacity total r) (sym q)
          (start_job-Accounted i j t at (Accounted-Frame s t f k))
  ]

  due-append-later : (now : ℕ) (js : List Job) → due_jobs now js ++ later_jobs now js ≡ js
  unfolding due_jobs later_jobs
  due-append-later now [] = refl
  due-append-later now (j ∷ js) = elim (Bool-cases (leb j.queued_at now)) [
    | inl b ↦ rw b (ap (λ r. j ∷ r) (due-append-later now js))
    | inr b ↦ rw b refl
  ]

  pub arrive-Accounted :
      (s : Sim) → Accounted capacity total s → Accounted capacity total (arrive s)
  unfolding arrive
  arrive-Accounted s k =
      let due = due_jobs s.now s.arrivals in
      let later = later_jobs s.now s.arrivals in
      let whole : keys_of due ++ keys_of later ≡ keys_of s.arrivals =
        sym (map-append key_of due later) ∙ ap keys_of (due-append-later s.now s.arrivals) in
      let all =
        subst (λ (ks : List (ℕ × ℕ)). All (InRange capacity) ks) (sym whole) k.arrivals_in_range in
      let joined : keys_of (s.queue ++ due) ++ keys_of later
          ≡ keys_of s.queue ++ keys_of s.arrivals =
        ap (λ ks. ks ++ keys_of later) (map-append key_of s.queue due)
        ∙ append_assoc (keys_of s.queue) (keys_of due) (keys_of later)
        ∙ ap (λ ks. keys_of s.queue ++ ks) whole in
      record {
        queue_in_range =
            subst (λ (ks : List (ℕ × ℕ)). All (InRange capacity) ks)
              (sym (map-append key_of s.queue due))
              (All-append (InRange capacity) (keys_of s.queue) (keys_of due) k.queue_in_range
                (All-append_left (InRange capacity) (keys_of due) (keys_of later) all));
        arrivals_in_range = All-append_right (InRange capacity) (keys_of due) (keys_of later) all;
        distinct = subst (λ (ks : List (ℕ × ℕ)). Distinct (ids_of ks)) (sym joined) k.distinct;
        charged = refl;
        counted =
            let split = due_or_later s.now s.arrivals in
            let more = length-append s.queue due in omega (arith, split, more, k.counted);
      }

  pub drain-Accounted :
      (mode : ReplayMode) (n : ℕ) (s : Sim)
      → Accounted capacity total s
      → Accounted capacity total (drain mode capacity n s)
  unfolding drain
  drain-Accounted mode zero s k = k
  drain-Accounted mode (suc n) s k = elim (Bool-cases (is_empty s.queue)) [
    | inl e ↦ rw e k
    | inr e ↦
        let k' = round-Accounted mode s k in
        elim (Bool-cases (round mode capacity s).1) [
          | inl b ↦ rw (e, b) (drain-Accounted mode n (round mode capacity s).0 k')
          | inr b ↦ rw (e, b) k'
        ]
  ]

  pub pass-Accounted :
      (mode : ReplayMode) (s : Sim)
      → Accounted capacity total s
      → Accounted capacity total (pass mode capacity s)
  unfolding pass
  pass-Accounted mode s k =
      drain-Accounted mode (length (arrive s).queue) (arrive s) (arrive-Accounted s k)

  pub clock-Accounted :
      (t : ℕ) (s : Sim)
      → Accounted capacity total s
      → Accounted capacity total (record s { now = t })
  clock-Accounted t s k = record {
    queue_in_range = k.queue_in_range;
    arrivals_in_range = k.arrivals_in_range;
    distinct = k.distinct;
    charged = k.charged;
    counted = k.counted;
  }
