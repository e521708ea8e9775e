-- ===== src/Replay/Clock.antt =====
-- The clock of replayPolicy in sessionpressure/workreplay.go finds something to do.
use session_pressure.Common.{
  List, ℕ, Bool, ◌≡◌, ltb, ◌≤◌, length, false, arith, Any, inl, ◌⊎◌, is_empty, ◌∷◌, sym, true, inr,
  clash, Any-map, [], Bool-cases, ◌==◌, refl, ◌||◌, subst,
}
use session_pressure.Replay.{Sim, Job, Running}
use session_pressure.Replay.Loop.{due_jobs, earliest, next_time, first_arrival, is_stuck}

-- Something is to be done at the present time: an arrival is due, or a running job has ended.
abbrev pub Due : Sim → Type 0
Due s =
    (ltb 0 (length (due_jobs s.now s.arrivals)) ≡ true) ⊎ Any (λ r. r.finish_at ≤ s.now) s.running

abbrev is_better : ℕ → Running → Bool
is_better t r = t == 0 || ltb r.finish_at t

earliest_taken :
    (t : ℕ) (r : Running) (rs : List Running)
    → is_better t r ≡ true
    → earliest t (r ∷ rs) ≡ earliest r.finish_at rs
unfolding earliest
earliest_taken t r rs b = rw b refl

earliest_left :
    (t : ℕ) (r : Running) (rs : List Running)
    → is_better t r ≡ false
    → earliest t (r ∷ rs) ≡ earliest t rs
unfolding earliest
earliest_left t r rs b = rw b refl

earliest-nil : (t : ℕ) → earliest t [] ≡ t
unfolding earliest
earliest-nil t = refl

abbrev EndsAt : List Running → ℕ → Type 0
EndsAt rs e = Any (λ r. r.finish_at ≡ e) rs

-- The time that the search ends at is the one it began with, or the end of a running job.
earliest-cases : (t : ℕ) (rs : List Running) → (earliest t rs ≡ t) ⊎ EndsAt rs (earliest t rs)
earliest-cases t [] = inl (earliest-nil t)
earliest-cases t (r ∷ rs) = elim (Bool-cases (is_better t r)) [
  | inl b ↦ inr (
      subst (λ (e : ℕ). EndsAt (r ∷ rs) e) (sym (earliest_taken t r rs b))
        (elim (earliest-cases r.finish_at rs) [ inl q ↦ inl (sym q) | inr q ↦ inr q ]))
  | inr b ↦
      subst (λ (e : ℕ). (e ≡ t) ⊎ EndsAt (r ∷ rs) e) (sym (earliest_left t r rs b))
        (elim (earliest-cases t rs) [ inl q ↦ inl q | inr q ↦ inr (inr q) ])
]

earliest_found :
    (rs : List Running) → is_empty rs ≡ false → Any (λ r. r.finish_at ≡ earliest 0 rs) rs
unfolding earliest
earliest_found [] h = absurd (clash true refl h)
earliest_found (r ∷ rs) h = elim (earliest-cases r.finish_at rs) [
  | inl q ↦ inl (sym q)
  | inr q ↦ inr q
]

next_time_reaches : (s : Sim) → earliest (first_arrival s.arrivals) s.running ≤ next_time s
unfolding next_time
next_time_reaches s = ground arith

pub due_at :
    (t : ℕ) (j : Job) (js : List Job)
    → j.queued_at ≤ t
    → ltb 0 (length (due_jobs t (j ∷ js))) ≡ true
unfolding due_jobs
due_at t j js h = ground arith

ended_at :
    (e t : ℕ) (rs : List Running)
    → e ≤ t
    → Any (λ r. r.finish_at ≡ e) rs
    → Any (λ r. r.finish_at ≤ t) rs
ended_at e t rs low h =
    Any-map (λ (r : Running). r.finish_at ≡ e) (λ (r : Running). r.finish_at ≤ t) rs
      (λ r q. omega arith) h

-- The clock that is advanced finds something to do.
pub next_Due :
    (s : Sim) (arrivals : List Job)
    → s.arrivals ≡ arrivals
    → is_stuck s ≡ false
    → Due (record s { now = next_time s })
next_Due s [] q h =
    let busy : is_empty s.running ≡ false = rw q at h in
    let found = earliest_found s.running busy in
    let reach : earliest 0 s.running ≤ next_time s =
      subst (λ (a : List Job). earliest (first_arrival a) s.running ≤ next_time s) q
        (next_time_reaches s) in
    inr (ended_at (earliest 0 s.running) (next_time s) s.running reach found)
next_Due s (j ∷ js) q h =
    let reach : earliest j.queued_at s.running ≤ next_time s =
      subst (λ (a : List Job). earliest (first_arrival a) s.running ≤ next_time s) q
        (next_time_reaches s) in
    elim (earliest-cases j.queued_at s.running) [
      | inl e ↦ inl (
          subst (λ (a : List Job). ltb 0 (length (due_jobs (next_time s) a)) ≡ true) (sym q)
            (due_at (next_time s) j js (omega (arith, reach, e))))
      | inr e ↦ inr (ended_at (earliest j.queued_at s.running) (next_time s) s.running reach e)
    ]
