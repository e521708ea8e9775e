-- ===== src/Replay/Fits.antt =====
-- What replayPolicy of sessionpressure/workreplay.go selects fits beside the running jobs.
use session_pressure.Replay.Accounts.{Accounted}
use mathlib.Core.List.{map-append}
use session_pressure.Ledger.Select.Safety.{Names, Fits, Weighs, select_work_waiter-Fits}
use session_pressure.Ledger.{Waiter}
use session_pressure.Replay.Frames.{keys_of}
use session_pressure.Replay.Accounts.{ids_of, InRange}
use session_pressure.Ledger.Select.{select_work_waiter, closed_window, selector_scan_limit}
use session_pressure.Common.{
  ℕ, Option, ◌≡◌, some, List, ◌≤◌, suc, take, Any, Distinct, arith, contains, ◌+◌, none, ◌∷◌, true,
  Bool-cases, inl, refl, leb, inr, ◌==◌, sym, [], zero, subst, clash, ==→eq, All, map,
  Distinct-append_left,
}
use session_pressure.Replay.{
  Job, place_fitting, place_of, next_place, job_at, Sim, choose_place, ReplayMode, as_waiter,
  place_selected, replay_fifo, replay_feasible_floor, replay_candidate,
}

place_inj : (i k : ℕ) → some i ≡ some k → i ≡ k
place_inj i k h = cc

pub job_inj : (x j : Job) → some x ≡ some j → x ≡ j
job_inj x j h = cc

next_place-some :
    (o : Option ℕ) (i : ℕ) → next_place o ≡ some i → (k : ℕ) × (o ≡ some k) × (i ≡ suc k)
next_place-some none i h = cc
next_place-some (some k) i h = (k, refl, omega (arith, place_inj (k + 1) i h))

place_fitting_fits :
    (used capacity n : ℕ) (js : List Job) (i : ℕ) (j : Job)
    → place_fitting used capacity (take n js) ≡ some i
    → job_at i js ≡ some j
    → used + j.weight ≤ capacity
unfolding place_fitting
place_fitting_fits used capacity zero js i j h at = cc
place_fitting_fits used capacity (suc n) [] i j h at = cc
place_fitting_fits used capacity (suc n) (x ∷ js) i j h at =
    elim (Bool-cases (leb (x.weight + used) capacity)) [
      | inl b ↦
          let first : some 0 ≡ some i = rw b at h in
          let z : i ≡ 0 = place_inj i 0 (sym first) in
          let same : x ≡ j = job_inj x j (rw z at at) in rw⁻¹ same (ground arith)
      | inr b ↦
          let (k, q, more) =
            next_place-some (place_fitting used capacity (take n js)) i (rw b at h) in
          place_fitting_fits used capacity n js k j q (rw more at at)
    ]

named_contained :
    (P : Job → Type 0) (op : ℕ) (js : List Job) (id : ℕ)
    → id ≡ op
    → Any (λ x. (x.id ≡ op) × P x) js
    → contains id (ids_of (keys_of js)) ≡ true
named_contained P op [] id q a = elim a [ ]
named_contained P op (x ∷ js) id q (inl (e, p)) = ground arith
named_contained P op (x ∷ js) id q (inr a) = ground (arith, named_contained P op js id q a)

-- The job that is found under a name is the one of which a property was shown under that name.
only_one :
    (P : Job → Type 0) (op : ℕ) (js : List Job) (i : ℕ) (j : Job)
    → Distinct (ids_of (keys_of js))
    → Any (λ x. (x.id ≡ op) × P x) js
    → place_of op js ≡ some i
    → job_at i js ≡ some j
    → P j
unfolding place_of
only_one P op [] i j d a h at = elim a [ ]
only_one P op (x ∷ js) i j d (inl (q, p)) h at =
    let b : (x.id == op) ≡ true = ground arith in
    let first : some 0 ≡ some i = rw b at h in
    let z : i ≡ 0 = place_inj i 0 (sym first) in
    let same : x ≡ j = job_inj x j (rw z at at) in subst P same p
only_one P op (x ∷ js) i j d (inr a) h at = elim (Bool-cases (x.id == op)) [
  | inl b ↦ absurd (
      clash (contains x.id (ids_of (keys_of js))) (named_contained P op js x.id (==→eq x.id op b) a)
        d.0)
  | inr b ↦
      let (k, q, more) = next_place-some (place_of op js) i (rw b at h) in
      only_one P op js k j d.1 a q (rw more at at)
]

jobs_weigh :
    (capacity : ℕ) (js : List Job)
    → All (InRange capacity) (keys_of js)
    → All Weighs (map as_waiter js)
jobs_weigh capacity [] a = tt
jobs_weigh capacity (j ∷ js) a = (a.0.0, jobs_weigh capacity js a.1)

-- With no green window, what fits fits the capacity itself.
closed_window_capacity :
    (used capacity : ℕ) (w : Waiter)
    → Fits used capacity closed_window w
    → used + w.weight ≤ capacity
closed_window_capacity used capacity w (inl h) = h
closed_window_capacity used capacity w (inr (active, express, h)) =
    absurd (clash true refl (sym active))

job_for_waiter :
    (used capacity op : ℕ) (js : List Job)
    → Any (λ w. Names op w × Fits used capacity closed_window w) (map as_waiter js)
    → Any (λ j. (j.id ≡ op) × (used + j.weight ≤ capacity)) js
job_for_waiter used capacity op [] a = elim a [ ]
job_for_waiter used capacity op (j ∷ js) (inl (n, f)) =
    inl (n, closed_window_capacity used capacity (as_waiter j) f)
job_for_waiter used capacity op (j ∷ js) (inr a) = inr (job_for_waiter used capacity op js a)

selected_fits :
    (capacity total : ℕ) (s : Sim) (o : Option ℕ) (i : ℕ) (j : Job)
    → Accounted capacity total s
    → (select_work_waiter (map as_waiter s.queue) s.used capacity s.now closed_window 0).selected
      ≡ o
    → place_selected o s.queue ≡ some i
    → job_at i s.queue ≡ some j
    → s.used + j.weight ≤ capacity
selected_fits capacity total s none i j k h p at = cc
selected_fits capacity total s (some op) i j k h p at =
    let found =
      select_work_waiter-Fits (map as_waiter s.queue) s.used capacity s.now closed_window 0 op
        (jobs_weigh capacity s.queue k.queue_in_range) h in
    let ids =
      subst Distinct (map-append (λ (x : ℕ × ℕ). x.0) (keys_of s.queue) (keys_of s.arrivals))
        k.distinct in
    only_one (λ x. s.used + x.weight ≤ capacity) op s.queue i j
      (Distinct-append_left (ids_of (keys_of s.queue)) (ids_of (keys_of s.arrivals)) ids)
      (job_for_waiter s.used capacity op s.queue found) p at

-- A job that is chosen fits beside the running ones.
pub choose_place_fits :
    (mode : ReplayMode) (capacity total : ℕ) (s : Sim) (i : ℕ) (j : Job)
    → Accounted capacity total s
    → (choose_place mode capacity s).place ≡ some i
    → job_at i s.queue ≡ some j
    → s.used + j.weight ≤ capacity
unfolding choose_place
choose_place_fits replay_fifo capacity total s i j k p at =
    place_fitting_fits s.used capacity 1 s.queue i j p at
choose_place_fits replay_feasible_floor capacity total s i j k p at =
    place_fitting_fits s.used capacity selector_scan_limit s.queue i j p at
choose_place_fits replay_candidate capacity total s i j k p at =
    selected_fits capacity total s _ i j k refl p at
