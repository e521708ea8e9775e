-- ===== src/Ledger/Reconcile/Premature.antt =====
-- The marks of protection that `reconcile` of sessionpressure/worklease.go refuses.
use session_pressure.Limits.{weight}
use session_pressure.Common.{
  is_some, List, ◌≡◌, ℕ, true, false, Any, arith, ◌<◌, ◌∷◌, inl, clash, inr, [],
}
use session_pressure.Ledger.Select.{work_waiter_protection, maximum_bypasses, bypass_aged}
use session_pressure.Ledger.{Waiter, WorkState, is_pressure, lease_operations}
use session_pressure.Ledger.Reconcile.{
  protection_fits, Host, Reconciled, Kept, is_benchmark, reconcile_waiters, reconcile,
}
use session_pressure.Ledger.Operations.{Caller, full_capacity, ok}
use session_pressure.Ledger.Reconcile.Soundness.{
  check_waiter_ok, reconcile_waiters_ok, reconcile_ok,
}

-- A waiter is marked as protected and is not a benchmark, and the limits of this caller give no
-- reason: it holds no reservation, is smaller than the capacity, and was not passed over for long.
abbrev pub StaleMark : Caller → Waiter → Type 0
StaleMark c w =
    (is_some w.protected_at ≡ true)
    × (is_benchmark w.class ≡ false)
    × (is_pressure w.reservation_kind ≡ false)
    × (weight c.cpus c.limits w.class < full_capacity c)
    × (w.bypass_count < maximum_bypasses)
    × (bypass_aged w.last_bypassed_at c.now ≡ false)

StaleMark-protection_fits :
    (c : Caller) (w : Waiter)
    → StaleMark c w
    → protection_fits (weight c.cpus c.limits w.class) (full_capacity c) c.now w ≡ false
unfolding protection_fits work_waiter_protection
StaleMark-protection_fits c w (marked, other, unreserved_kind, small, few, young) =
    rw (other, unreserved_kind, young) (ground arith)

reconcile_waiters_stale :
    (c : Caller) (h : Host) (ops : List ℕ) (ws : List Waiter) (k : Kept Waiter)
    → Any (StaleMark c) ws
    → ¬ (reconcile_waiters c h ops ws ≡ ok k)
reconcile_waiters_stale c h ops [] k m = elim m [ ]
reconcile_waiters_stale c h ops (w ∷ ws) k m = λ e.
    let (stays, e₁, rest, e₂, _) = reconcile_waiters_ok c h ops w ws k e in
    elim m [
      | inl stale ↦
          clash _ (check_waiter_ok c h ops w stays e₁).2 (StaleMark-protection_fits c w stale)
      | inr more ↦ reconcile_waiters_stale c h (w.operation_id ∷ ops) ws rest more e₂
    ]

-- No reconciliation accepts a document in which a waiter other than a benchmark is marked as
-- protected without a reason under the limits of the caller, be it live or dead: smaller than the
-- capacity, without a reservation, and neither passed over often nor for long.
pub reconcile-StaleMark :
    (c : Caller) (h : Host) (s : WorkState) (r : Reconciled)
    → Any (StaleMark c) s.waiters
    → ¬ (reconcile c h s ≡ ok r)
reconcile-StaleMark c h s r m = λ e.
    let (_, _, ws, e₂, _, _) = reconcile_ok c h s r e in
    reconcile_waiters_stale c h (lease_operations s.leases) s.waiters ws m e₂
