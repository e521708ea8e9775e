-- ===== src/Replay/Frames.antt =====
-- What a round of replayPolicy in sessionpressure/workreplay.go leaves as it is.
use session_pressure.Replay.{choose_place}
use session_pressure.Common.{
  List, ℕ, map, ◌≡◌, ◌∙◌, update_at, ◌∷◌, Option, Bool-cases, some, false, refl, suc, if◌then◌else◌,
  ltb, ◌⊎◌, ap, inl, ◌+◌, true, [], max, inr, is_empty, zero, none,
}
use session_pressure.Replay.{
  Job, Sim, charge_passed, settle_choice, round, contend, Choice, violate, job_at, ReplayMode,
  charge_job, start_at, start_choice, is_behind, is_protected_at, start_job, bypasses_of,
}

-- The identity and the weight of a job; a pass changes neither.
abbrev pub key_of : Job → ℕ × ℕ
key_of j = (j.id, j.weight)

abbrev pub keys_of : List Job → List (ℕ × ℕ)
keys_of js = map key_of js

-- Nothing starts, ends or arrives between two states.
pub record Frame (s r : Sim) : Type 0 where
  pub queue_keys : keys_of r.queue ≡ keys_of s.queue
  pub same_running : r.running ≡ s.running
  pub same_used : r.used ≡ s.used
  pub same_arrivals : r.arrivals ≡ s.arrivals
  pub same_now : r.now ≡ s.now
  pub same_waits : r.tally.waits ≡ s.tally.waits

pub Frame-refl : (s : Sim) → Frame s s
Frame-refl s = record {
  queue_keys = refl;
  same_running = refl;
  same_used = refl;
  same_arrivals = refl;
  same_now = refl;
  same_waits = refl;
}

pub Frame-trans : (s r q : Sim) → Frame s r → Frame r q → Frame s q
Frame-trans s r q f g = record {
  queue_keys = g.queue_keys ∙ f.queue_keys;
  same_running = g.same_running ∙ f.same_running;
  same_used = g.same_used ∙ f.same_used;
  same_arrivals = g.same_arrivals ∙ f.same_arrivals;
  same_now = g.same_now ∙ f.same_now;
  same_waits = g.same_waits ∙ f.same_waits;
}

keys_of-update_at :
    (i now : ℕ) (js : List Job) → keys_of (update_at i (charge_job now) js) ≡ keys_of js
keys_of-update_at i now [] = refl
keys_of-update_at zero now (j ∷ js) = refl
keys_of-update_at (suc i) now (j ∷ js) = ap (λ r. key_of j ∷ r) (keys_of-update_at i now js)

pub charge_passed-Frame :
    (capacity : ℕ) (before : List Job) (is : List ℕ) (s : Sim)
    → Frame s (charge_passed capacity before is s)
unfolding charge_passed
charge_passed-Frame capacity before [] s = Frame-refl s
charge_passed-Frame capacity before (i ∷ is) s =
    let charged = update_at i (charge_job s.now) s.queue in
    let violated = if is_protected_at capacity s.now (job_at i before) then 1 else 0 in
    let next : Sim = record s {
      queue = charged;
      tally = record s.tally {
        protected_violations = s.tally.protected_violations + violated;
        maximum_seen = max s.tally.maximum_seen (bypasses_of (job_at i charged));
      };
    } in
    let first : Frame s next = record {
      queue_keys = keys_of-update_at i s.now s.queue;
      same_running = refl;
      same_used = refl;
      same_arrivals = refl;
      same_now = refl;
      same_waits = refl;
    } in
    Frame-trans s next _ first (charge_passed-Frame capacity before is next)

contend-Frame : (s : Sim) → Frame s (contend s)
contend-Frame s = record {
  queue_keys = refl;
  same_running = refl;
  same_used = refl;
  same_arrivals = refl;
  same_now = refl;
  same_waits = refl;
}

pub settle_choice-Frame :
    (capacity : ℕ) (c : Choice) (s : Sim) → Frame s (settle_choice capacity c s)
unfolding settle_choice
settle_choice-Frame capacity c s = elim (Bool-cases (is_behind c.place)) [
  | inl h ↦ rw h (
      Frame-trans s (contend s) _ (contend-Frame s)
        (charge_passed-Frame capacity s.queue c.passed (contend s)))
  | inr h ↦ rw h (Frame-refl s)
]

violate-Frame : (s : Sim) → Frame s (violate s)
violate-Frame s = record {
  queue_keys = refl;
  same_running = refl;
  same_used = refl;
  same_arrivals = refl;
  same_now = refl;
  same_waits = refl;
}

-- A round stops and leaves the frame, or it starts one job of the queue.
abbrev pub Started : ℕ → Sim → Sim → Type 0
Started capacity s r =
    (i : ℕ) × (j : Job) × (job_at i s.queue ≡ some j)
    × (ltb capacity (s.used + j.weight) ≡ false)
    × (r ≡ start_job i j s)

start_at-cases :
    (capacity i : ℕ) (o : Option Job) (s : Sim)
    → job_at i s.queue ≡ o
    → let r = start_at capacity i o s in
      ((r.1 ≡ false) × Frame s r.0) ⊎ ((r.1 ≡ true) × Started capacity s r.0)
start_at-cases capacity i none s h = inl (refl, Frame-refl s)
start_at-cases capacity i (some j) s h = elim (Bool-cases (ltb capacity (s.used + j.weight))) [
  | inl b ↦ rw b (inl (refl, violate-Frame s))
  | inr b ↦ rw b (inr (refl, (i, j, h, b, refl)))
]

start_choice-cases :
    (capacity : ℕ) (p : Option ℕ) (s : Sim)
    → let r = start_choice capacity p s in
      ((r.1 ≡ false) × Frame s r.0) ⊎ ((r.1 ≡ true) × Started capacity s r.0)
start_choice-cases capacity none s = elim (Bool-cases (is_empty s.running)) [
  | inl b ↦ rw b (inl (refl, Frame-refl s))
  | inr b ↦ rw b (inl (refl, contend-Frame s))
]
start_choice-cases capacity (some i) s = start_at-cases capacity i (job_at i s.queue) s refl

-- The cases of a round: it stops within the frame, or a job starts after the passes were charged.
pub round-cases :
    (mode : ReplayMode) (capacity : ℕ) (s : Sim)
    → let r = round mode capacity s in
      ((r.1 ≡ false) × Frame s r.0)
      ⊎ ((r.1 ≡ true) × (t : Sim) × Frame s t × Started capacity t r.0)
unfolding round
round-cases mode capacity s =
    let c = choose_place mode capacity s in
    let t = settle_choice capacity c s in
    let f = settle_choice-Frame capacity c s in
    elim (start_choice-cases capacity c.place t) [
      | inl (b, g) ↦ inl (b, Frame-trans s t _ f g)
      | inr (b, g) ↦ inr (b, t, f, g)
    ]
