-- ===== src/Ledger/Latching/Counting.antt =====
-- The shared CPU latch counts time, not pollers: what one observation may change, and how many it
-- takes to latch.
use session_pressure.Ledger.{Latch}
use session_pressure.Common.{
  ℕ, ◌≡◌, some, none, true, ◌<◌, ◌≤◌, ◌+◌, leb, false, max, arith, refl, ◌∙◌, ◌||◌, ap, List, All,
  length, sum_of, ◌∷◌, [],
}
use session_pressure.Ledger.Latching.{
  Observation, current_latch, is_counted, count_observation, observe_latch, latch_sample_interval,
  latch_stale, sample,
}

current_kept :
    (now at : ℕ) (l : Latch)
    → l.observed_at ≡ some at
    → now ≤ at + latch_stale
    → current_latch (some l) now ≡ l
unfolding current_latch
current_kept now at l e h = rw e (ground arith)

is_counted_lem :
    (now at : ℕ) (l : Latch)
    → l.observed_at ≡ some at
    → is_counted l now ≡ leb (at + latch_sample_interval) now
unfolding is_counted
is_counted_lem now at l e = rw e refl

-- An observation within the sampling interval of the last counted one, whoever makes it, counts
-- nothing: the verdict, its time and both counters stay.
pub observe_latch_early :
    (block release : ℕ) (o : Observation) (now at : ℕ) (l : Latch)
    → l.observed_at ≡ some at
    → now < at + latch_sample_interval
    → let l' = observe_latch block release o now (some l) in
      (l'.latched ≡ l.latched)
      × (l'.latched_at ≡ l.latched_at)
      × (l'.red_samples ≡ l.red_samples)
      × (l'.recovery_samples ≡ l.recovery_samples)
      × (l'.observed_at ≡ l.observed_at)
unfolding observe_latch sample
observe_latch_early block release o now at l e h =
    let uncounted : is_counted l now ≡ false = is_counted_lem now at l e ∙ ground arith in
    simp (current_kept now at l e (omega arith), uncounted) (refl, refl, refl, refl, refl)

-- An observation latches only when it is red, counts, and is the last of the red samples that the
-- policy asks for; and one that is not stale unlatches only when it reports recovery, counts, and is
-- the last of the recovery samples.
pub observe_latch_turns :
    (block release : ℕ) (o : Observation) (now at : ℕ) (l : Latch)
    → l.observed_at ≡ some at
    → now ≤ at + latch_stale
    → let l' = observe_latch block release o now (some l) in
      (l.latched ≡ false
        → l'.latched ≡ true
        → (o.red ≡ true) × (at + latch_sample_interval ≤ now) × (block ≤ l.red_samples + 1))
      × (l.latched ≡ true
          → l'.latched ≡ false
          → (o.red ≡ false)
            × (o.recovered ≡ true)
            × (at + latch_sample_interval ≤ now)
            × (release ≤ l.recovery_samples + 1))
unfolding observe_latch sample count_observation
observe_latch_turns block release o now at l e h =
    let kept = current_kept now at l e h in
    let counted = is_counted_lem now at l e in
    (
      λ off on. let on' = simp (kept, counted) at on in ground arith,
      λ on off. let off' = simp (kept, counted) at off in ground arith,
    )

-- One more counted red observation.
observe_red :
    (block release : ℕ) (o : Observation) (now at : ℕ) (l : Latch)
    → l.observed_at ≡ some at
    → o.red ≡ true
    → at + latch_sample_interval ≤ now
    → now ≤ at + latch_stale
    → let l' = observe_latch block release o now (some l) in
      (l'.latched ≡ (l.latched || leb (max 1 block) (l.red_samples + 1)))
      × (l'.red_samples ≡ l.red_samples + 1)
      × (l'.observed_at ≡ some now)
unfolding observe_latch sample count_observation
observe_red block release o now at l e red late near =
    let kept = current_kept now at l e near in
    let counted : is_counted l now ≡ true = is_counted_lem now at l e ∙ ground arith in
    simp (kept, counted, red) (ground arith, ground arith, refl)

-- The first observation counts.
first_red :
    (block release : ℕ) (o : Observation) (now : ℕ)
    → o.red ≡ true
    → let l = observe_latch block release o now none in
      (l.latched ≡ leb (max 1 block) 1) × (l.red_samples ≡ 1) × (l.observed_at ≡ some now)
unfolding observe_latch sample count_observation current_latch is_counted
first_red block release o now red = rw red (ground arith, ground arith, ground arith)

either_bound : (a n : ℕ) → (leb a n || leb a (n + 1)) ≡ leb a (n + 1)
either_bound a n = ground arith

-- The latch after more observations, each with its distance from the one before.
unfoldable pub watch : ℕ → ℕ → List (ℕ × Observation) → ℕ → Latch → Latch
watch block release [] now l = l
watch block release ((gap, o) ∷ os) now l =
    watch block release os (now + gap) (observe_latch block release o (now + gap) (some l))

-- A red observation that comes no sooner after the one before than the sampling interval, and no
-- later than the latch remembers.
abbrev pub SpacedRed : ℕ × Observation → Type 0
SpacedRed (gap, o) = (o.red ≡ true) × (latch_sample_interval ≤ gap) × (gap ≤ latch_stale)

-- The counters that nothing but `n` counted red observations, the last at `now`, leave behind.
abbrev pub CountsReds : ℕ → ℕ → ℕ → Latch → Type 0
CountsReds block n now l =
    (l.latched ≡ leb (max 1 block) n) × (l.red_samples ≡ n) × (l.observed_at ≡ some now)

observe-CountsReds :
    (block release : ℕ) (r : ℕ × Observation) (now n : ℕ) (l : Latch)
    → SpacedRed r
    → CountsReds block n now l
    → CountsReds block (n + 1) (now + r.0) (observe_latch block release r.1 (now + r.0) (some l))
observe-CountsReds block release (gap, o) now n l (red, close, near) (on, count, at) =
    let (on', count', at') =
      observe_red block release o (now + gap) now l at red (omega (arith, close))
        (omega (arith, near)) in
    (
      on'
          ∙ ap (λ b. b || leb (max 1 block) (l.red_samples + 1)) on
          ∙ ap (λ k. leb (max 1 block) n || leb (max 1 block) (k + 1)) count
          ∙ either_bound (max 1 block) n,
      count' ∙ ap (λ k. k + 1) count,
      at',
    )

watch-CountsReds :
    (block release : ℕ) (rs : List (ℕ × Observation)) (now n : ℕ) (l : Latch)
    → All SpacedRed rs
    → CountsReds block n now l
    → CountsReds block (n + length rs) (now + sum_of (λ r. r.0) rs) (watch block release rs now l)
unfolding watch
watch-CountsReds block release [] now n l a h =
    let same : n + 0 ≡ n = omega arith in
    let here : now + 0 ≡ now = omega arith in rw (same, here) h
watch-CountsReds block release (r ∷ rs) now n l a h =
    let next =
      watch-CountsReds block release rs (now + r.0) (n + 1)
        (observe_latch block release r.1 (now + r.0) (some l)) a.1
        (observe-CountsReds block release r now n l a.0 h) in
    let count : n + 1 + length rs ≡ n + length (r ∷ rs) = omega arith in
    let time : now + r.0 + sum_of (λ x. x.0) rs ≡ now + sum_of (λ x. x.0) (r ∷ rs) = omega arith in
    rw (count, time) at next

-- From no latch, red observations of whatever dimension and reason, each no sooner after the one
-- before than the sampling interval and no later than the latch remembers, all count, and the latch is
-- set exactly when there are as many as the policy asks for, at least one.
pub reds_latch :
    (block release start : ℕ) (o : Observation) (rs : List (ℕ × Observation))
    → o.red ≡ true
    → All SpacedRed rs
    → let l = watch block release rs start (observe_latch block release o start none) in
      (l.latched ≡ leb (max 1 block) (1 + length rs))
      × (l.red_samples ≡ 1 + length rs)
      × (l.observed_at ≡ some (start + sum_of (λ r. r.0) rs))
reds_latch block release start o rs red spaced =
    watch-CountsReds block release rs start 1 (observe_latch block release o start none) spaced
      (first_red block release o start red)
