-- ===== src/Ledger/Reconcile/Soundness.antt =====
-- What a document is after `reconcile` of sessionpressure/worklease.go accepted it.
use session_pressure.Ledger.Override.Pins.{advance_pins}
use session_pressure.Ledger.Bypasses.{WithinBypasses}
use session_pressure.Ledger.Select.{maximum_bypasses}
use session_pressure.Limits.{weight}
use session_pressure.Ledger.{
  Lease, lease_operations, WorkState, Waiter, waiter_operations, queued_before,
}
use mathlib.Core.List.{Sublist}
use session_pressure.Ledger.Operations.{
  Caller, ok, valid_private_id, bad_lease_id, invalid_id, duplicate_lease, duplicate_operation,
  bad_lease_metadata, sort_waiters, bad_waiter_metadata, bad_bypass_count, bad_waiter_time,
  bad_reservation, full_capacity, premature_protection,
}
use session_pressure.Ledger.Reconcile.{
  check_lease, reconcile_leases, Kept, Host, lease_metadata, fill_supervisor, supervisor_owns,
  lease_stays, check_waiter, reconcile_waiters, reconcile, assemble, Reconciled, reconcile_holds,
  waiter_stays, waiter_metadata, waiter_time, reservation_fits, protection_fits, lacks_supervisor,
}
use session_pressure.Common.{
  List, ℕ, ◌∷◌, contains, Distinct, Bool, ◌≡◌, arith, false, true, [], ◌++◌, ◌==◌, refl, not, ap,
  sym, ◌≤◌, Distinct-sublist, ◌&&◌, Distinct-perm, is_empty, leb, ◌∙◌, leb→le, sort_by-perm, ◌||◌,
  All-sort_by,
}
use session_pressure.Ledger.Results.{bind_ok, require_ok, ok_inj}
use mathlib.Core.List.Sublist
use mathlib.Core.List.Perm
use session_pressure.Ledger.Runs.{Sound}
use session_pressure.Ledger.Reconcile.Rounds.{
  Fresh, Fresh-Distinct, Distinct-append, Keeps, round_ok, Keeps-sublist, All-Keeps,
}

-- What the check of a lease has found when it says whether the lease stays.
pub check_lease_ok :
    (c : Caller) (h : Host) (ids ops : List ℕ) (l : Lease) (stays : Bool)
    → check_lease c h ids ops l ≡ ok stays
    → (contains l.operation_id ops ≡ false)
      × (lease_metadata c.now l ≡ true)
      × (owns : Bool) × (supervisor_owns c h l ≡ ok owns)
      × (lease_stays c h owns l ≡ ok stays)
unfolding check_lease
check_lease_ok c h ids ops l stays e =
    let (_, e₁) = require_ok (valid_private_id l.id) bad_lease_id _ stays e in
    let (_, e₂) = require_ok (valid_private_id l.operation_id) invalid_id _ stays e₁ in
    let (_, e₃) = require_ok (not (contains l.id ids)) duplicate_lease _ stays e₂ in
    let (new, e₄) = require_ok (not (contains l.operation_id ops)) duplicate_operation _ stays e₃ in
    let (meta, e₅) = require_ok (lease_metadata c.now l) bad_lease_metadata _ stays e₄ in
    let (owns, e₆, e₇) = bind_ok (supervisor_owns c h l) _ stays e₅ in
    (ground arith, meta, owns, e₆, e₇)

-- What one round of the loop over the leases has found.
pub reconcile_leases_ok :
    (c : Caller) (h : Host) (legacy : Bool) (ids ops : List ℕ) (raw : Lease) (ls : List Lease)
    (k : Kept Lease)
    → reconcile_leases c h legacy ids ops (raw ∷ ls) ≡ ok k
    → let l = fill_supervisor raw in
      (stays : Bool) × (check_lease c h ids ops l ≡ ok stays)
      × (rest : Kept Lease) × (reconcile_leases c h legacy (l.id ∷ ids) (l.operation_id ∷ ops) ls
          ≡ ok rest)
      × Keeps stays (record l { weight = weight c.cpus c.limits l.class }) rest.items k.items
unfolding reconcile_leases
reconcile_leases_ok c h legacy ids ops raw ls k e =
    let l = fill_supervisor raw in
    let filled = lacks_supervisor raw && not legacy in
    let expected = weight c.cpus c.limits l.class in
    round_ok (check_lease c h ids ops l)
      (reconcile_leases c h legacy (l.id ∷ ids) (l.operation_id ∷ ops) ls)
      (filled || not (l.weight == expected)) (record l { weight = expected })
      (λ q. record q { changed = filled || q.changed }) k (λ q. refl) e

-- The loop over the leases.
pub reconcile_leases-Fresh :
    (c : Caller) (h : Host) (legacy : Bool) (ids ops : List ℕ) (ls : List Lease) (k : Kept Lease)
    → reconcile_leases c h legacy ids ops ls ≡ ok k
    → Fresh ops (lease_operations ls) × Sublist (lease_operations k.items) (lease_operations ls)
unfolding reconcile_leases fill_supervisor
reconcile_leases-Fresh c h legacy ids ops [] k e = (tt, rw (sym (ok_inj _ k e)) (Sublist.refl []))
reconcile_leases-Fresh c h legacy ids ops (raw ∷ ls) k e =
    let (stays, e₁, rest, e₂, kept) = reconcile_leases_ok c h legacy ids ops raw ls k e in
    let l = fill_supervisor raw in
    let (fresh, sub) =
      reconcile_leases-Fresh c h legacy (l.id ∷ ids) (l.operation_id ∷ ops) ls rest e₂ in
    (
      ((check_lease_ok c h ids ops l stays e₁).0, fresh),
      Keeps-sublist (λ x. x.operation_id) stays _ rest.items k.items _ kept sub,
    )

pub check_waiter_ok :
    (c : Caller) (h : Host) (ops : List ℕ) (w : Waiter) (stays : Bool)
    → check_waiter c h ops w ≡ ok stays
    → (contains w.operation_id ops ≡ false)
      × (w.bypass_count ≤ maximum_bypasses)
      × (protection_fits (weight c.cpus c.limits w.class) (full_capacity c) c.now w ≡ true)
      × (waiter_stays c h w ≡ ok stays)
unfolding check_waiter
check_waiter_ok c h ops w stays e =
    let (_, e₁) = require_ok (valid_private_id w.operation_id) invalid_id _ stays e in
    let (new, e₂) = require_ok (not (contains w.operation_id ops)) duplicate_operation _ stays e₁ in
    let (_, e₃) = require_ok (waiter_metadata c.now w) bad_waiter_metadata _ stays e₂ in
    let (room, e₄) = require_ok (leb w.bypass_count maximum_bypasses) bad_bypass_count _ stays e₃ in
    let (_, e₅) =
      require_ok
        (waiter_time w.queued_at c.now w.last_bypassed_at
          && waiter_time w.queued_at c.now w.protected_at)
        bad_waiter_time _ stays e₄ in
    let (_, e₆) = require_ok (reservation_fits c.now w) bad_reservation _ stays e₅ in
    let (fitting, e₇) =
      require_ok (protection_fits (weight c.cpus c.limits w.class) (full_capacity c) c.now w)
        premature_protection _ stays e₆ in
    (ground arith, leb→le w.bypass_count maximum_bypasses room, fitting, e₇)

pub reconcile_waiters_ok :
    (c : Caller) (h : Host) (ops : List ℕ) (w : Waiter) (ws : List Waiter) (k : Kept Waiter)
    → reconcile_waiters c h ops (w ∷ ws) ≡ ok k
    → (stays : Bool) × (check_waiter c h ops w ≡ ok stays)
      × (rest : Kept Waiter) × (reconcile_waiters c h (w.operation_id ∷ ops) ws ≡ ok rest)
      × Keeps stays (record w { weight = weight c.cpus c.limits w.class }) rest.items k.items
unfolding reconcile_waiters
reconcile_waiters_ok c h ops w ws k e =
    let expected = weight c.cpus c.limits w.class in
    round_ok (check_waiter c h ops w) (reconcile_waiters c h (w.operation_id ∷ ops) ws)
      (not (w.weight == expected)) (record w { weight = expected }) (λ q. q) k (λ q. refl) e

-- The loop over the waiters.
pub reconcile_waiters-Fresh :
    (c : Caller) (h : Host) (ops : List ℕ) (ws : List Waiter) (k : Kept Waiter)
    → reconcile_waiters c h ops ws ≡ ok k
    → Fresh ops (waiter_operations ws)
      × Sublist (waiter_operations k.items) (waiter_operations ws)
      × WithinBypasses k.items
unfolding reconcile_waiters
reconcile_waiters-Fresh c h ops [] k e = rw (sym (ok_inj _ k e)) (tt, Sublist.refl [], tt)
reconcile_waiters-Fresh c h ops (w ∷ ws) k e =
    let (stays, e₁, rest, e₂, kept) = reconcile_waiters_ok c h ops w ws k e in
    let (fresh, sub, room) = reconcile_waiters-Fresh c h (w.operation_id ∷ ops) ws rest e₂ in
    let found = check_waiter_ok c h ops w stays e₁ in
    (
      (found.0, fresh),
      Keeps-sublist (λ x. x.operation_id) stays _ rest.items k.items _ kept sub,
      All-Keeps _ stays _ rest.items k.items kept (λ _. found.1) room,
    )

-- The three loops of a reconciliation that succeeds.
pub reconcile_ok :
    (c : Caller) (h : Host) (s : WorkState) (r : Reconciled)
    → reconcile c h s ≡ ok r
    → (ls : Kept Lease) × (reconcile_leases c h s.legacy_active [] [] s.leases ≡ ok ls)
      × (ws : Kept Waiter) × (reconcile_waiters c h (lease_operations s.leases) s.waiters ≡ ok ws)
      × (r.state.leases ≡ ls.items)
      × (r.state.waiters ≡ sort_waiters ws.items)
unfolding reconcile assemble
reconcile_ok c h s r e =
    let (ls, e₁, e₂) = bind_ok (reconcile_leases c h s.legacy_active [] [] s.leases) _ r e in
    let (ws, e₃, e₄) =
      bind_ok (reconcile_waiters c h (lease_operations s.leases) s.waiters) _ r e₂ in
    let (ds, e₅, e₆) = bind_ok (reconcile_holds c h [] s.admission_holds) _ r e₄ in
    let s₁ = record s {
      leases = ls.items;
      waiters = sort_waiters ws.items;
      legacy_active =
          s.legacy_active && not (is_empty ls.items && is_empty (sort_waiters ws.items));
    } in
    let p = advance_pins s₁ c.now in
    let same : assemble c s ls ws ds ≡ r = ok_inj _ r e₆ in
    (
      ls,
      e₁,
      ws,
      e₃,
      ap (λ q. q.state.leases) (sym same) ∙ p.2,
      ap (λ q. q.state.waiters) (sym same) ∙ p.1,
    )

-- Whatever the document held, once a reconciliation accepts it no operation stands twice under lease
-- or in the queue, and no waiter has been bypassed more than the maximum of four times.
pub reconcile-Sound :
    (c : Caller) (h : Host) (s : WorkState) (r : Reconciled)
    → reconcile c h s ≡ ok r
    → Sound r.state
reconcile-Sound c h s r e =
    let (ls, e₁, ws, e₂, same_ls, same_ws) = reconcile_ok c h s r e in
    let (fresh_ls, sub_ls) = reconcile_leases-Fresh c h s.legacy_active [] [] s.leases ls e₁ in
    let (fresh_ws, sub_ws, room) =
      reconcile_waiters-Fresh c h (lease_operations s.leases) s.waiters ws e₂ in
    let read : Distinct (lease_operations s.leases ++ waiter_operations s.waiters) =
      Distinct-append (lease_operations s.leases) (waiter_operations s.waiters)
        (lease_operations s.leases) (λ _ m. m) (Fresh-Distinct [] _ fresh_ls) fresh_ws in
    let kept : Distinct (lease_operations ls.items ++ waiter_operations ws.items) =
      Distinct-sublist _ _ (Sublist.append sub_ls sub_ws) read in
    (
      rw (same_ls, same_ws)
          (Distinct-perm _ _
            (Perm.append_left (lease_operations ls.items)
              (Perm.map (λ w. w.operation_id) (sort_by-perm queued_before ws.items)))
            kept),
      rw same_ws (All-sort_by queued_before _ ws.items room),
    )
