-- ===== src/SwapThrash/Verdict.antt =====
-- When the swap-thrash latch turns, and when it lets work through.
use session_pressure.Limits.{WorkLimits}
use session_pressure.Common.{
  ◌≡◌, false, true, if◌then◌else◌, ◌≤◌, ◌==◌, ◌⊎◌, ◌↔◌, arith, ◌+◌, Bool-cases, inl, inr,
}
use session_pressure.SwapThrash.{ThrashLatch, Sample, Thresholds, observe, count_rate, settle}
use session_pressure.SwapThrash.Advance.{attribute, agents_large, release_window, set_external}

-- The run lengths are below what would turn the verdict.
abbrev pub Settled : ThrashLatch → Type 0
Settled l = ((l.latched ≡ false) → l.hot ≤ 1) × ((l.latched ≡ true) → l.calm ≤ 1)

-- From a settled latch, one sample turns the verdict on only if it is hot and so was the one before,
-- and off only if it is calm and so was the one before, or if the counters or the threshold are gone;
-- the latch is settled again, and latched only with counters.
pub observe_turns :
    (l : ThrashLatch) (s : Sample) (t : Thresholds)
    → Settled l
    → let l' = observe l s t in
      Settled l'
      × (l'.latched ≡ true → s.swap_io_available ≡ true)
      × (l.latched ≡ false → l'.latched ≡ true → (l.hot ≡ 1) × (t.thrash ≤ s.swap_out))
      × (l.latched ≡ true
          → l'.latched ≡ false
          → (s.swap_io_available ≡ false)
            ⊎ (t.thrash ≡ 0)
            ⊎ ((l.calm ≡ 1) × (s.swap_out ≤ t.release)))
unfolding observe count_rate settle
observe_turns l s t (hot, calm) = (
  (
    λ h. elim (Bool-cases l.latched) [
      | inl e ↦ ground arith
      | inr e ↦ let few = hot e in ground arith
    ],
    λ h. elim (Bool-cases l.latched) [
      | inl e ↦ let few = calm e in ground arith
      | inr e ↦ ground arith
    ],
  ),
  λ h. ground arith,
  λ off on. let few = hot off in ground arith,
  λ on off. let few = calm on in ground arith,
)

-- An episode is attributed to outside the agents, which lifts the derate, exactly when the leased
-- work is small now, the policy has a window, and the leased work was small for the whole window or
-- the episode is already proven.
pub attribute_external :
    (l : ThrashLatch) (s : Sample) (limits : WorkLimits)
    → let l' = attribute l s limits in
      let quiet = if l.quiet_since == 0 then s.timestamp else l.quiet_since in
      (l'.is_external ≡ true) ↔ (
        (agents_large s limits ≡ false)
        × (1 ≤ release_window limits)
        × ((l.proven ≡ true) ⊎ (quiet + release_window limits ≤ s.timestamp)))
unfolding attribute set_external
attribute_external l s limits = (λ h. ground arith, λ h. ground arith)
