-- ===== src/Replay/Gates.antt =====
-- The safety gates of a replay, in sessionpressure/workreplay.go: no selection exceeds the capacity,
-- no protected job is passed, and none is passed more often than is allowed.
use session_pressure.Replay.Fits.{job_inj, choose_place_fits}
use session_pressure.Replay.Accounts.{
  Accounted, round-Accounted, arrive-Accounted, pass-Accounted, clock-Accounted,
}
use session_pressure.Ledger.Bypasses.{unprotected_count}
use session_pressure.Ledger.Select.Safety.{select_work_waiter_bypassed}
use session_pressure.Replay.Frames.{keys_of, key_of, settle_choice-Frame}
use session_pressure.Ledger.Select.{
  maximum_bypasses, work_waiter_protection, select_work_waiter, closed_window,
}
use session_pressure.Common.{
  ℕ, Option, ◌≡◌, some, List, ◌≤◌, suc, arith, ◌+◌, none, ◌∷◌, Bool-cases, inl, refl, inr, sym, [],
  zero, map, false, update_at, is_empty, Option-cases, ltb, ap, ◌∙◌, length,
}
use session_pressure.Replay.{
  Tally, Job, job_at, Sim, choose_place, charge_passed, ReplayMode, contend, as_waiter,
  is_protected_at, bypasses_of, charge_job, replay_fifo, settle_choice, start_choice,
  replay_feasible_floor, Choice, is_behind, replay_candidate, round, drain,
}
use session_pressure.Replay.Loop.{pass, run, arrive, is_over, is_stuck, next_time}

pub record Gates (t : Tally) : Type 0 where
  pub capacity_kept : t.capacity_violations ≡ 0
  pub protection_kept : t.protected_violations ≡ 0
  pub passes_bounded : t.maximum_seen ≤ maximum_bypasses

contend-Gates : (s : Sim) → Gates s.tally → Gates (contend s).tally
contend-Gates s g = record {
  capacity_kept = g.capacity_kept;
  protection_kept = g.protection_kept;
  passes_bounded = g.passes_bounded;
}

-- One pass over a head that is not protected.
charge_head-Gates :
    (capacity : ℕ) (s : Sim) (h : Job) (rest : List Job)
    → s.queue ≡ h ∷ rest
    → work_waiter_protection (as_waiter h) capacity s.now ≡ none
    → Gates s.tally
    → Gates (charge_passed capacity s.queue (0 ∷ []) s).tally
unfolding charge_passed
charge_head-Gates capacity s h rest q free g =
    let room = unprotected_count (as_waiter h) capacity s.now free in
    let open' : is_protected_at capacity s.now (job_at 0 s.queue) ≡ false = rw (q, free) refl in
    let count : bypasses_of (job_at 0 (update_at 0 (charge_job s.now) s.queue)) ≡ h.bypasses + 1 =
      rw q refl in
    record {
      capacity_kept = g.capacity_kept;
      protection_kept = rw open' (omega (arith, g.protection_kept));
      passes_bounded = rw count (omega (arith, room, g.passes_bounded));
    }

charge_none-Gates :
    (capacity : ℕ) (s : Sim) (before : List Job)
    → Gates s.tally
    → Gates (charge_passed capacity before [] s).tally
unfolding charge_passed
charge_none-Gates capacity s before g = g

no_waiters :
    (used capacity now : ℕ)
    → (select_work_waiter [] used capacity now closed_window 0).bypassed ≡ []
unfolding select_work_waiter
no_waiters used capacity now = refl

-- The passes of a selection are within the gates.
charge_selected-Gates :
    (capacity : ℕ) (s : Sim) (queue : List Job)
    → s.queue ≡ queue
    → Gates s.tally
    → Gates
        (charge_passed capacity s.queue
          (select_work_waiter (map as_waiter queue) s.used capacity s.now closed_window 0).bypassed
          s).tally
charge_selected-Gates capacity s [] q g =
    rw (no_waiters s.used capacity s.now) (charge_none-Gates capacity s s.queue g)
charge_selected-Gates capacity s (h ∷ rest) q g =
    elim (select_work_waiter_bypassed (as_waiter h) (map as_waiter rest) s.used capacity s.now
      closed_window 0) [
        | inl e ↦ rw e (charge_none-Gates capacity s s.queue g)
        | inr (e, free) ↦ rw e (charge_head-Gates capacity s h rest q free g)
      ]

settled :
    (capacity : ℕ) (c : Choice) (s : Sim)
    → Gates s.tally
    → Gates (charge_passed capacity s.queue c.passed (contend s)).tally
    → Gates (settle_choice capacity c s).tally
unfolding settle_choice
settled capacity c s g after = elim (Bool-cases (is_behind c.place)) [
  | inl b ↦ rw b after
  | inr b ↦ rw b g
]

settle_choice-Gates :
    (mode : ReplayMode) (capacity : ℕ) (s : Sim)
    → Gates s.tally
    → Gates (settle_choice capacity (choose_place mode capacity s) s).tally
unfolding settle_choice choose_place
settle_choice-Gates replay_fifo capacity s g =
    settled capacity (choose_place replay_fifo capacity s) s g
      (charge_none-Gates capacity (contend s) s.queue (contend-Gates s g))
settle_choice-Gates replay_feasible_floor capacity s g =
    settled capacity (choose_place replay_feasible_floor capacity s) s g
      (charge_none-Gates capacity (contend s) s.queue (contend-Gates s g))
settle_choice-Gates replay_candidate capacity s g =
    settled capacity (choose_place replay_candidate capacity s) s g
      (charge_selected-Gates capacity (contend s) s.queue refl (contend-Gates s g))

start_choice-Gates :
    (capacity : ℕ) (p : Option ℕ) (s : Sim)
    → ((i : ℕ) (j : Job) → p ≡ some i → job_at i s.queue ≡ some j → s.used + j.weight ≤ capacity)
    → Gates s.tally
    → Gates (start_choice capacity p s).0.tally
start_choice-Gates capacity none s fits g = elim (Bool-cases (is_empty s.running)) [
  | inl b ↦ rw b g
  | inr b ↦ rw b (contend-Gates s g)
]
start_choice-Gates capacity (some i) s fits g = elim (Option-cases (job_at i s.queue)) [
  | inl none_there ↦ rw none_there g
  | inr (j, at) ↦
      let low : ltb capacity (s.used + j.weight) ≡ false =
        let fit = fits i j refl at in ground arith in
      rw (at, low)
        (record {
          capacity_kept = g.capacity_kept;
          protection_kept = g.protection_kept;
          passes_bounded = g.passes_bounded;
        })
]

abbrev weight_of : List (ℕ × ℕ) → ℕ
weight_of [] = 0
weight_of (k ∷ ks) = k.1

abbrev rest_of : List (ℕ × ℕ) → List (ℕ × ℕ)
rest_of [] = []
rest_of (k ∷ ks) = ks

no_keys : (k : ℕ × ℕ) (ks : List (ℕ × ℕ)) → [] ≡ k ∷ ks → ⊥
no_keys k ks h = cc

pub sim_inj : (s r : Sim) → some s ≡ some r → s ≡ r
sim_inj s r h = cc

pub unfinished : (r : Sim) → none ≡ some r → ⊥
unfinished r h = cc

same_key :
    (i : ℕ) (xs ys : List Job) (j : Job)
    → keys_of xs ≡ keys_of ys
    → job_at i xs ≡ some j
    → (k : Job) × (job_at i ys ≡ some k) × (k.weight ≡ j.weight)
same_key i [] ys j q at = cc
same_key i (x ∷ xs) [] j q at = absurd (no_keys (key_of x) (keys_of xs) (sym q))
same_key zero (x ∷ xs) (y ∷ ys) j q at =
    (y, refl, ap (λ ks. weight_of ks) (sym q) ∙ ap (λ (k : Job). k.weight) (job_inj x j at))
same_key (suc i) (x ∷ xs) (y ∷ ys) j q at = same_key i xs ys j (ap rest_of q) at

round-Gates :
    (mode : ReplayMode) (capacity total : ℕ) (s : Sim)
    → Accounted capacity total s
    → Gates s.tally
    → Gates (round mode capacity s).0.tally
unfolding round
round-Gates mode capacity total s k g =
    let c = choose_place mode capacity s in
    let t = settle_choice capacity c s in
    let f = settle_choice-Frame capacity c s in
    let fits : (i : ℕ) (j : Job)
        → c.place ≡ some i
        → job_at i t.queue ≡ some j
        → t.used + j.weight ≤ capacity =
      λ i j p at.
        let (j', there, same) = same_key i t.queue s.queue j f.queue_keys at in
        let fit = choose_place_fits mode capacity total s i j' k p there in
        omega (arith, fit, same, f.same_used) in
    start_choice-Gates capacity c.place t fits (settle_choice-Gates mode capacity s g)

drain-Gates :
    (mode : ReplayMode) (capacity total n : ℕ) (s : Sim)
    → Accounted capacity total s
    → Gates s.tally
    → Gates (drain mode capacity n s).tally
unfolding drain
drain-Gates mode capacity total zero s k g = g
drain-Gates mode capacity total (suc n) s k g = elim (Bool-cases (is_empty s.queue)) [
  | inl e ↦ rw e g
  | inr e ↦
      let g' = round-Gates mode capacity total s k g in
      let k' = round-Accounted capacity total mode s k in
      elim (Bool-cases (round mode capacity s).1) [
        | inl b ↦ rw (e, b) (drain-Gates mode capacity total n (round mode capacity s).0 k' g')
        | inr b ↦ rw (e, b) g'
      ]
]

pass-Gates :
    (mode : ReplayMode) (capacity total : ℕ) (s : Sim)
    → Accounted capacity total s
    → Gates s.tally
    → Gates (pass mode capacity s).tally
unfolding pass arrive
pass-Gates mode capacity total s k g =
    drain-Gates mode capacity total (length (arrive s).queue) (arrive s)
      (arrive-Accounted capacity total s k) g

pub run-Gates :
    (mode : ReplayMode) (capacity total n : ℕ) (s r : Sim)
    → Accounted capacity total s
    → Gates s.tally
    → run mode capacity n s ≡ some r
    → Gates r.tally
unfolding run
run-Gates mode capacity total zero s r k g h = elim (Bool-cases (is_over s)) [
  | inl over ↦ rw⁻¹ (sim_inj s r (rw over at h)) g
  | inr left ↦ absurd (unfinished r (rw left at h))
]
run-Gates mode capacity total (suc n) s r k g h = elim (Bool-cases (is_over s)) [
  | inl over ↦ rw⁻¹ (sim_inj s r (rw over at h)) g
  | inr left ↦
      let p = pass mode capacity s in
      let k' = pass-Accounted capacity total mode s k in
      let g' = pass-Gates mode capacity total s k g in
      elim (Bool-cases (is_stuck p)) [
        | inl stuck ↦ rw⁻¹ (sim_inj p r (rw (left, stuck) at h)) g'
        | inr more ↦
            run-Gates mode capacity total n (record p { now = next_time p }) r
              (clock-Accounted capacity total (next_time p) p k') g' (rw (left, more) at h)
      ]
]
