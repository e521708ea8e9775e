-- ===== src/Ledger/Reconcile/Identities.antt =====
-- The identities of leases after `reconcile` of sessionpressure/worklease.go, and what a mutation of
-- its result does.
use mathlib.Core.List.{Sublist}
use session_pressure.Ledger.{WorkState, Lease}
use session_pressure.Common.{
  List, Bool, ℕ, ◌≡◌, contains, map, [], false, Distinct, sym, Distinct-sublist, ◌∷◌, not, arith,
}
use session_pressure.Ledger.Operations.{
  Caller, ok, valid_private_id, bad_lease_id, invalid_id, duplicate_lease,
}
use session_pressure.Ledger.Reconcile.{
  check_lease, reconcile_leases, Host, fill_supervisor, Reconciled, reconcile, Kept,
}
use mathlib.Core.List.Sublist
use session_pressure.Ledger.Results.{require_ok, ok_inj}
use session_pressure.Ledger.Reconcile.Soundness.{reconcile_leases_ok, reconcile_ok, reconcile-Sound}
use session_pressure.Ledger.Reconcile.Rounds.{Fresh, Fresh-Distinct, Keeps-sublist}
use session_pressure.Ledger.Runs.{Step, AcquiresNew}
use session_pressure.Ledger.Runs.Phases.{Move, phase}
use session_pressure.Ledger.Runs.Refinement.{Step-Move}

check_lease_new :
    (c : Caller) (h : Host) (ids ops : List ℕ) (l : Lease) (stays : Bool)
    → check_lease c h ids ops l ≡ ok stays
    → contains l.id ids ≡ false
unfolding check_lease
check_lease_new c h ids ops l stays e =
    let (_, e₁) = require_ok (valid_private_id l.id) bad_lease_id _ stays e in
    let (_, e₂) = require_ok (valid_private_id l.operation_id) invalid_id _ stays e₁ in
    let (new, _) = require_ok (not (contains l.id ids)) duplicate_lease _ stays e₂ in ground arith

reconcile_leases_identities :
    (c : Caller) (h : Host) (legacy : Bool) (ids ops : List ℕ) (ls : List Lease) (k : Kept Lease)
    → reconcile_leases c h legacy ids ops ls ≡ ok k
    → Fresh ids (map (λ l. l.id) ls) × Sublist (map (λ l. l.id) k.items) (map (λ l. l.id) ls)
unfolding reconcile_leases fill_supervisor
reconcile_leases_identities c h legacy ids ops [] k e =
    (tt, rw (sym (ok_inj _ k e)) (Sublist.refl []))
reconcile_leases_identities c h legacy ids ops (raw ∷ ls) k e =
    let (stays, e₁, rest, e₂, kept) = reconcile_leases_ok c h legacy ids ops raw ls k e in
    let l = fill_supervisor raw in
    let (fresh, sub) =
      reconcile_leases_identities c h legacy (l.id ∷ ids) (l.operation_id ∷ ops) ls rest e₂ in
    (
      (check_lease_new c h ids ops l stays e₁, fresh),
      Keeps-sublist (λ x. x.id) stays _ rest.items k.items _ kept sub,
    )

-- Each mutation under the ledger's lock of a state that a reconciliation accepted, whatever the document
-- held, is one move of at most one operation: it joins the queue from nowhere, goes from the queue to a
-- lease or away, from its lease away or back into the queue, or is admitted at once, and that only
-- while nobody queues. No other operation changes its phase. If the mutation is an acquisition without
-- a queue place, it must be for an operation that the state does not know. The mutations are to
-- acquire, register, attempt, cancel, release, park, bind, reserve, drop, hold and release an
-- admission, promote, clear the promotion, and observe the latch.
pub reconcile-Move :
    (c : Caller) (h : Host) (s t : WorkState) (r : Reconciled) (step : Step r.state t)
    → reconcile c h s ≡ ok r
    → AcquiresNew r.state t step
    → Move (phase r.state) (phase t)
reconcile-Move c h s t r step e new =
    let (ls, e₁, _, _, same_ls, _) = reconcile_ok c h s r e in
    let (fresh, sub) = reconcile_leases_identities c h s.legacy_active [] [] s.leases ls e₁ in
    let distinct : Distinct (map (λ l. l.id) ls.items) =
      Distinct-sublist _ _ sub (Fresh-Distinct [] _ fresh) in
    Step-Move r.state t step new (reconcile-Sound c h s r e) (rw same_ls distinct)
