-- ===== src/Replay/Completion.antt =====
-- Every job of a replay of sessionpressure/workreplay.go starts, and the replay stays within its gates.
use session_pressure.Ledger.Select.{closed_window, select_work_waiter}
use session_pressure.Replay.Gates.{sim_inj, unfinished, Gates, run-Gates}
use session_pressure.Replay.Progress.{no_jobs, round-Lowers, replay_policy_ends}
use session_pressure.Replay.Frames.{keys_of, round-cases}
use session_pressure.Ledger.Select.Order.{select_work_waiter_progress}
use session_pressure.Common.{
  List, ℕ, is_empty, ◌≤◌, ◌∷◌, ◌≡◌, length, All, take, some, true, subst, false, suc, ==_refl, ltb,
  ◌⊎◌, clash, arith, Bool-cases, ◌+◌, sym, inl, Distinct, refl, map, [], ◌∙◌, inr, ap, zero, ◌*◌,
  leb,
}
use session_pressure.Replay.{
  place_fitting, place_of, choose_place, round, ReplayMode, drain, Job, Sim, settle_choice, Running,
  as_waiter, job_at, Tally, replay_fifo, replay_feasible_floor, replay_candidate, place_selected,
}
use session_pressure.Replay.Loop.{
  pass, run, is_stuck, used_by, arrive, is_over, start_of, next_time, replay_policy, empty_tally,
}
use session_pressure.Replay.Accounts.{
  Accounted, round-Accounted, arrive-Accounted, pass-Accounted, clock-Accounted, drain-Accounted,
  InRange, ids_of,
}

place_fitting_head :
    (used capacity n : ℕ) (j : Job) (js : List Job)
    → used + j.weight ≤ capacity
    → place_fitting used capacity (take (suc n) (j ∷ js)) ≡ some 0
unfolding place_fitting
place_fitting_head used capacity n j js h =
    let low : leb (j.weight + used) capacity ≡ true = ground arith in rw low refl

place_of_head : (j : Job) (js : List Job) → place_of j.id (j ∷ js) ≡ some 0
unfolding place_of
place_of_head j js = rw (==_refl j.id) refl

-- A head that fits beside the running jobs is chosen.
choose_place_head :
    (mode : ReplayMode) (capacity : ℕ) (s : Sim) (j : Job) (js : List Job)
    → s.queue ≡ j ∷ js
    → s.used + j.weight ≤ capacity
    → (choose_place mode capacity s).place ≡ some 0
unfolding choose_place
choose_place_head replay_fifo capacity s j js q h =
    subst (λ (x : List Job). place_fitting s.used capacity (take 1 x) ≡ some 0) (sym q)
      (place_fitting_head s.used capacity 0 j js h)
choose_place_head replay_feasible_floor capacity s j js q h =
    subst (λ (x : List Job). place_fitting s.used capacity (take 64 x) ≡ some 0) (sym q)
      (place_fitting_head s.used capacity 63 j js h)
choose_place_head replay_candidate capacity s j js q h =
    let picked =
      select_work_waiter_progress (as_waiter j) (map as_waiter js) s.used capacity s.now
        closed_window 0 h in
    subst
      (λ (x : List Job).
        place_selected
          (select_work_waiter (map as_waiter x) s.used capacity s.now closed_window 0).selected x
        ≡ some 0)
      (sym q) (ap (λ o. place_selected o (j ∷ js)) picked ∙ place_of_head j js)

-- On an idle machine a round starts a job.
round_starts :
    (mode : ReplayMode) (capacity : ℕ) (s : Sim) (j : Job) (js : List Job)
    → s.queue ≡ j ∷ js
    → s.used ≡ 0
    → j.weight ≤ capacity
    → (round mode capacity s).1 ≡ true
unfolding round settle_choice
round_starts mode capacity s j js q idle h =
    let low : ltb capacity (s.used + j.weight) ≡ false = ground (arith, idle) in
    let at : job_at 0 s.queue ≡ some j = rw q refl in
    rw (choose_place_head mode capacity s j js q (omega (arith, idle, h)), at, low) refl

idle_weight : (rs : List Running) → is_empty rs ≡ true → used_by rs ≡ 0
idle_weight [] h = refl
idle_weight (r ∷ rs) h = absurd (clash true refl (sym h))

head_fits :
    (capacity total : ℕ) (s : Sim) (j : Job) (js : List Job)
    → Accounted capacity total s
    → s.queue ≡ j ∷ js
    → j.weight ≤ capacity
head_fits capacity total s j js k q =
    let all = subst (λ (x : List Job). All (InRange capacity) (keys_of x)) q k.queue_in_range in
    all.0.1

-- A round that stops on a queue leaves a busy machine.
busy_stop :
    (mode : ReplayMode) (capacity total : ℕ) (s : Sim)
    → Accounted capacity total s
    → (round mode capacity s).1 ≡ false
    → (queue : List Job) → s.queue ≡ queue
    → is_empty queue ≡ false
    → let r = (round mode capacity s).0 in (is_empty r.queue ≡ true) ⊎ (is_empty r.running ≡ false)
busy_stop mode capacity total s k b [] q e = absurd (clash true refl e)
busy_stop mode capacity total s k b (j ∷ js) q e = elim (Bool-cases (is_empty s.running)) [
  | inl idle ↦
      let none_used : s.used ≡ 0 = k.charged ∙ idle_weight s.running idle in
      absurd (
        clash (round mode capacity s).1
          (round_starts mode capacity s j js q none_used (head_fits capacity total s j js k q)) b)
  | inr busy ↦ elim (round-cases mode capacity s) [
    | inl (_, f) ↦ inr (ap is_empty f.same_running ∙ busy)
    | inr (b', _, _, _) ↦ absurd (clash (round mode capacity s).1 b' b)
  ]
]

-- A pass leaves nobody waiting on an idle machine.
drain_serves :
    (mode : ReplayMode) (capacity total n : ℕ) (s : Sim)
    → Accounted capacity total s
    → length s.queue ≤ n
    → let d = drain mode capacity n s in (is_empty d.queue ≡ true) ⊎ (is_empty d.running ≡ false)
unfolding drain
drain_serves mode capacity total zero s k low = inl (no_jobs s.queue low)
drain_serves mode capacity total (suc n) s k low = elim (Bool-cases (is_empty s.queue)) [
  | inl e ↦ rw e (inl e)
  | inr e ↦
      let r = round mode capacity s in
      let k' = round-Accounted capacity total mode s k in
      let (arrivals, now, lower) = round-Lowers mode capacity s in
      elim (Bool-cases r.1) [
        | inl b ↦ elim lower [
          | inl (b', p) ↦ absurd (clash r.1 b b')
          | inr (b', p, shorter) ↦
              rw (e, b) (drain_serves mode capacity total n r.0 k' (omega (arith, shorter, low)))
        ]
        | inr b ↦ rw (e, b) (busy_stop mode capacity total s k b s.queue refl e)
      ]
]

-- What is over has no job left to start.
abbrev Served : ℕ → Sim → Type 0
Served total r = length r.tally.waits ≡ total

empty_length : {A : Type 0} (xs : List A) → is_empty xs ≡ true → length xs ≡ 0
empty_length [] h = refl
empty_length (x ∷ xs) h = absurd (clash true refl (sym h))

none_left :
    (capacity total : ℕ) (r : Sim)
    → Accounted capacity total r
    → is_empty r.queue ≡ true
    → is_empty r.arrivals ≡ true
    → Served total r
none_left capacity total r k q a =
    omega (arith, k.counted, empty_length r.queue q, empty_length r.arrivals a)

stuck_serves :
    (mode : ReplayMode) (capacity total : ℕ) (s : Sim)
    → Accounted capacity total s
    → is_stuck (pass mode capacity s) ≡ true
    → Served total (pass mode capacity s)
unfolding pass
stuck_serves mode capacity total s k h =
    let a = arrive s in
    let k' = arrive-Accounted capacity total s k in
    let p = drain mode capacity (length a.queue) a in
    let quiet : is_empty p.running ≡ true = ground arith in
    let gone : is_empty p.arrivals ≡ true = ground arith in
    elim (drain_serves mode capacity total (length a.queue) a k' (omega arith)) [
      | inl q ↦
          none_left capacity total p (drain-Accounted capacity total mode (length a.queue) a k') q
            gone
      | inr busy ↦ absurd (clash (is_empty p.running) quiet busy)
    ]

run_serves :
    (mode : ReplayMode) (capacity total n : ℕ) (s r : Sim)
    → Accounted capacity total s
    → run mode capacity n s ≡ some r
    → Served total r
unfolding run
run_serves mode capacity total zero s r k h = elim (Bool-cases (is_over s)) [
  | inl over ↦
      subst (Served total) (sim_inj s r (rw over at h))
        (none_left capacity total s k (ground arith) (ground arith))
  | inr left ↦ absurd (unfinished r (rw left at h))
]
run_serves mode capacity total (suc n) s r k h = elim (Bool-cases (is_over s)) [
  | inl over ↦
      subst (Served total) (sim_inj s r (rw over at h))
        (none_left capacity total s k (ground arith) (ground arith))
  | inr left ↦
      let p = pass mode capacity s in
      elim (Bool-cases (is_stuck p)) [
        | inl stuck ↦
            subst (Served total) (sim_inj p r (rw (left, stuck) at h))
              (stuck_serves mode capacity total s k stuck)
        | inr more ↦
            run_serves mode capacity total n (record p { now = next_time p }) r
              (clock-Accounted capacity total (next_time p) p
                (pass-Accounted capacity total mode s k))
              (rw (left, more) at h)
      ]
]

start-Accounted :
    (capacity : ℕ) (jobs : List Job)
    → All (InRange capacity) (keys_of jobs)
    → Distinct (ids_of (keys_of jobs))
    → Accounted capacity (length jobs) (start_of jobs)
start-Accounted capacity jobs a d = record {
  queue_in_range = tt;
  arrivals_in_range = a;
  distinct = d;
  charged = refl;
  counted = omega arith;
}

-- If the jobs have distinct identities and weights from 1 to the capacity, then under each selection
-- the replay ends with every job started, and with its safety gates kept: no start exceeded the
-- capacity, no protected job was passed, and none was passed more than four times.
pub replay_policy_serves :
    (mode : ReplayMode) (capacity : ℕ) (jobs : List Job)
    → All (InRange capacity) (keys_of jobs)
    → Distinct (ids_of (keys_of jobs))
    → (t : Tally) × (replay_policy mode capacity jobs ≡ some t)
      × (length t.waits ≡ length jobs)
      × Gates t
replay_policy_serves mode capacity jobs a d =
    let (s, q, result) = replay_policy_ends mode capacity jobs in
    let k = start-Accounted capacity jobs a d in
    let clean : Gates empty_tally = record {
      capacity_kept = refl;
      protection_kept = refl;
      passes_bounded = omega arith;
    } in
    (
      s.tally,
      result,
      run_serves mode capacity (length jobs) (3 * length jobs) (start_of jobs) s k q,
      run-Gates mode capacity (length jobs) (3 * length jobs) (start_of jobs) s k clean q,
    )
