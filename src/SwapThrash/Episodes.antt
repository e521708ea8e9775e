-- ===== src/SwapThrash/Episodes.antt =====
-- Episodes: what an advance of the swap-thrash latch keeps and what it reports.
use session_pressure.Limits.{WorkLimits, normalize_work_limits}
use session_pressure.Common.{
  ◌≡◌, Bool, true, none, arith, ◌↔◌, ◌∙◌, Bool-cases, inl, refl, inr, sym, some, false, ℕ,
}
use session_pressure.SwapThrash.{
  ThrashLatch, Sample, Thresholds, Published, Transition, observe, count_rate, settle,
}
use session_pressure.SwapThrash.Advance.{
  attribute, advance, Advance, begin_episode, end_episode, go_on, derate_event, set_external, enter,
  follow, by_verdict,
}

-- The derate is lifted only inside a latched episode that is proven external.
abbrev pub Coherent : ThrashLatch → Type 0
Coherent l = (l.is_external ≡ true) → (l.latched ≡ true) × (l.proven ≡ true)

attribute_keeps :
    (l : ThrashLatch) (s : Sample) (limits : WorkLimits)
    → let l' = attribute l s limits in
      (l'.latched ≡ l.latched) × ((l'.is_external ≡ true) → l'.proven ≡ true)
unfolding attribute set_external
attribute_keeps l s limits = (ground arith, λ h. ground arith)

-- What an advance guarantees of its result.
abbrev Honest : ThrashLatch → Advance → Type 0
Honest before a =
    Coherent a.latch
    × (a.published.swap_thrash_latched ≡ a.latch.latched)
    × ((a.event ≡ none)
        → (a.latch.latched ≡ before.latched)
          × ((before.is_external ≡ true) ↔ (a.latch.is_external ≡ true)))

reported : (e : Transition) → some e ≡ none → ⊥
reported e h = cc

off : false ≡ true → ⊥
off h = cc

begin_episode-Honest :
    (before l : ThrashLatch) (s : Sample) (limits : WorkLimits)
    → l.latched ≡ true
    → Honest before (begin_episode before l s limits)
unfolding begin_episode enter
begin_episode-Honest before l s limits on =
    let k = attribute_keeps (enter before l s limits) s limits in
    (λ h. (k.0 ∙ on, k.1 h), refl, λ h. absurd (reported _ h))

end_episode-Honest :
    (before l : ThrashLatch) (s : Sample) (limits : WorkLimits)
    → Honest before (end_episode before l s limits)
unfolding end_episode
end_episode-Honest before l s limits = (λ h. absurd (off h), refl, λ h. absurd (reported _ h))

derate_event-none :
    (was : Bool) (l : ThrashLatch) (s : Sample) (limits : WorkLimits)
    → derate_event was l s limits ≡ none
    → (was ≡ true) ↔ (l.is_external ≡ true)
unfolding derate_event
derate_event-none was l s limits h = (λ e. ground arith, λ e. ground arith)

go_on-Honest :
    (before l : ThrashLatch) (s : Sample) (limits : WorkLimits)
    → before.latched ≡ true
    → l.latched ≡ true
    → Honest before (go_on before l s limits)
unfolding go_on
go_on-Honest before l s limits was on =
    let k = attribute_keeps l s limits in
    elim (Bool-cases before.resumed) [
      | inl e ↦ rw e (λ h. (k.0 ∙ on, k.1 h), refl, λ h. absurd (reported _ h))
      | inr e ↦ rw e (
        λ h. (k.0 ∙ on, k.1 h),
        refl,
        λ h. (
          k.0 ∙ on ∙ sym was,
          derate_event-none before.is_external (attribute l s limits) s limits h,
        ),
      )
    ]

-- A sample never makes the derate lift by itself: that is left to the attribution.
observe_external :
    (l : ThrashLatch) (s : Sample) (t : Thresholds)
    → (observe l s t).is_external ≡ true
    → l.is_external ≡ true
unfolding observe count_rate settle
observe_external l s t h = ground arith

by_verdict-cases :
    {A : Type 0} (P : A → Type 0) (was on : Bool) (begins ends goes_on idle : A)
    → (on ≡ true → P begins)
    → P ends
    → (was ≡ true → on ≡ true → P goes_on)
    → (was ≡ false → on ≡ false → P idle)
    → P (by_verdict was on begins ends goes_on idle)
by_verdict-cases P true true begins ends goes_on idle b e g i = g refl refl
by_verdict-cases P true false begins ends goes_on idle b e g i = e
by_verdict-cases P false true begins ends goes_on idle b e g i = b refl
by_verdict-cases P false false begins ends goes_on idle b e g i = i refl refl

follow-Honest :
    (before l : ThrashLatch) (s : Sample) (old : Published) (limits : WorkLimits)
    → Coherent before
    → (l.is_external ≡ true → before.is_external ≡ true)
    → Honest before (follow before l s old limits)
unfolding follow
follow-Honest before l s old limits coherent same =
    by_verdict-cases (Honest before) before.latched l.latched (begin_episode before l s limits)
      (end_episode before l s limits) (go_on before l s limits) _
      (begin_episode-Honest before l s limits) (end_episode-Honest before l s limits)
      (go_on-Honest before l s limits)
      (λ was still. (
        λ h. absurd (off (sym was ∙ (coherent (same h)).0)),
        refl,
        λ h. (still ∙ sym was, (λ x. absurd (off (sym was ∙ (coherent x).0)), λ x. same x)),
      ))

-- An advance keeps the latch coherent: the derate is lifted only inside a latched episode that is
-- proven external. It publishes the latch's own verdict, and if it reports no event then neither
-- the verdict nor the state of the derate changed.
pub advance-Honest :
    (cpus : ℕ) (before : ThrashLatch) (s : Sample) (old : Published) (t : Thresholds)
    (raw : WorkLimits)
    → Coherent before
    → let a = advance cpus before s old t raw in
      Coherent a.latch
      × (a.published.swap_thrash_latched ≡ a.latch.latched)
      × ((a.event ≡ none)
          → (a.latch.latched ≡ before.latched)
            × ((before.is_external ≡ true) ↔ (a.latch.is_external ≡ true)))
unfolding advance
advance-Honest cpus before s old t raw coherent =
    follow-Honest before (observe before s t) s old (normalize_work_limits cpus raw) coherent
      (observe_external before s t)
