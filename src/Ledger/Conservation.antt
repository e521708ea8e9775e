-- ===== src/Ledger/Conservation.antt =====
-- Where operations go: the state's operations, under lease and queued, as one list up to order.
use session_pressure.Ledger.Override.Pins.{advance_pins}
use session_pressure.Ledger.Override.{advance_work_override}
use mathlib.Core.List.{Perm, map-append, append_assoc, perm_append_singleton, perm_middle}
use session_pressure.Ledger.Select.{materialize_work_protections, GreenWindow}
use session_pressure.Common.{
  List, ℕ, ◌++◌, ◌≡◌, update_at, contains, ◌∷◌, true, some, arith, suc, ◌∙◌, [], ap, Bool-cases,
  ◌==◌, refl, zero, inl, ==→eq, inr, Option-cases, sym, subst, same?, false, sort_by-perm, ◌⊎◌, ◌≢◌,
  contains-append,
}
use mathlib.Core.List.Perm
use session_pressure.Ledger.{
  Waiter, WorkState, lease_operations, waiter_operations, Selection, Lease, queued_before,
}
use session_pressure.Ledger.Operations.{
  beat, count_bypass, charge_bypasses, drop_waiter, find_waiter, take_lease, try_acquire, Caller,
  prepare, attempt, register, full_capacity, choose, ok, sort_waiters,
}

-- The operations that the coordinator knows, those under lease first.
abbrev pub operations : WorkState → List ℕ
operations s = lease_operations s.leases ++ waiter_operations s.waiters

waiter_operations-beat :
    (op now : ℕ) (ws : List Waiter) → waiter_operations (beat op now ws) ≡ waiter_operations ws
unfolding beat
waiter_operations-beat op now [] = refl
waiter_operations-beat op now (w ∷ ws) = ground (arith, waiter_operations-beat op now ws)

waiter_operations-materialize :
    (capacity now : ℕ) (ws : List Waiter)
    → waiter_operations (materialize_work_protections capacity now ws) ≡ waiter_operations ws
unfolding materialize_work_protections
waiter_operations-materialize capacity now [] = refl
waiter_operations-materialize capacity now (w ∷ ws) =
    ground (arith, waiter_operations-materialize capacity now ws)

waiter_operations-update_at :
    (i now : ℕ) (ws : List Waiter)
    → waiter_operations (update_at i (count_bypass now) ws) ≡ waiter_operations ws
unfolding count_bypass
waiter_operations-update_at i now [] = refl
waiter_operations-update_at zero now (w ∷ ws) = refl
waiter_operations-update_at (suc i) now (w ∷ ws) =
    ap (λ r. w.operation_id ∷ r) (waiter_operations-update_at i now ws)

pub waiter_operations-charge :
    (now : ℕ) (is : List ℕ) (ws : List Waiter)
    → waiter_operations (charge_bypasses now is ws) ≡ waiter_operations ws
unfolding charge_bypasses
waiter_operations-charge now [] ws = refl
waiter_operations-charge now (i ∷ is) ws =
    waiter_operations-charge now is (update_at i (count_bypass now) ws)
    ∙ waiter_operations-update_at i now ws

-- Dropping a queued operation takes its identity out once.
drop_waiter-perm :
    (op : ℕ) (ws : List Waiter)
    → contains op (waiter_operations ws) ≡ true
    → Perm (op ∷ waiter_operations (drop_waiter op ws)) (waiter_operations ws)
unfolding drop_waiter
drop_waiter-perm op [] h = cc
drop_waiter-perm op (w ∷ ws) h = elim (Bool-cases (w.operation_id == op)) [
  | inl e ↦ rw (e, ==→eq _ _ e) Perm.rfl
  | inr e ↦
      rw e (Perm.trans (Perm.swap _ _ _) (Perm.cons _ (drop_waiter-perm op ws (ground arith))))
]

pub find_waiter-contains :
    (op : ℕ) (ws : List Waiter) (w : Waiter)
    → find_waiter op ws ≡ some w
    → contains op (waiter_operations ws) ≡ true
unfolding find_waiter
find_waiter-contains op [] w h = cc
find_waiter-contains op (v ∷ ws) w h = ground (arith, find_waiter-contains op ws w)

-- The state that a selected caller leaves, before its lease is added.
pub advance_parts :
    (s : WorkState) (now : ℕ)
    → let s' = (advance_work_override s now).0 in (s'.waiters ≡ s.waiters) × (s'.leases ≡ s.leases)
advance_parts s now = let p = advance_pins s now in (p.1, p.2)

take_lease-perm :
    (now : ℕ) (sel shadow : Selection) (lease : Lease) (s : WorkState)
    → contains lease.operation_id (waiter_operations s.waiters) ≡ true
    → Perm (operations (take_lease now sel shadow lease s)) (operations s)
unfolding take_lease
take_lease-perm now sel shadow lease s h =
    let op = lease.operation_id in
    let ws = charge_bypasses now sel.bypassed s.waiters in
    let charged = waiter_operations-charge now sel.bypassed s.waiters in
    let s₁ = record s {
      waiters = drop_waiter op ws;
      last_selection = sel;
      last_shadow_selection = shadow;
    } in
    let dropped : Perm (op ∷ waiter_operations (drop_waiter op ws)) (waiter_operations s.waiters) =
      rw (sym charged) (drop_waiter-perm op ws (rw charged h)) in
    rw
      (
        (advance_parts s₁ now).0,
        (advance_parts s₁ now).1,
        map-append (λ l. l.operation_id) s.leases (lease ∷ []),
        append_assoc (lease_operations s.leases) (op ∷ []) (waiter_operations (drop_waiter op ws)),
      )
      (Perm.append_left (lease_operations s.leases) dropped)

pub waiter_operations-prepare :
    (c : Caller) (op : ℕ) (s : WorkState)
    → waiter_operations (prepare c op s).waiters ≡ waiter_operations s.waiters
unfolding prepare
waiter_operations-prepare c op s =
    waiter_operations-materialize (full_capacity c) c.now (beat op c.now s.waiters)
    ∙ waiter_operations-beat op c.now s.waiters

attempt-perm :
    (c : Caller) (ceiling : ℕ) (green : GreenWindow) (lease : Lease) (s : WorkState)
    → contains lease.operation_id (waiter_operations s.waiters) ≡ true
    → Perm (operations (attempt c ceiling green lease s).0) (operations s)
unfolding attempt
attempt-perm c ceiling green lease s h =
    let sel = choose c ceiling green s in
    elim (Bool-cases (same? sel.selected (some lease.operation_id))) [
      | inl e ↦ rw e (take_lease-perm c.now sel _ lease s h)
      | inr e ↦ rw e Perm.rfl
    ]

-- Whatever the outcome, an attempt to acquire neither loses nor makes up an operation: those under
-- lease and those queued are the same ones, as often.
pub try_acquire-perm :
    (c : Caller) (ceiling : ℕ) (green : GreenWindow) (lease : Lease) (s : WorkState)
    → Perm (operations (try_acquire c ceiling green lease s).0) (operations s)
unfolding try_acquire
try_acquire-perm c ceiling green lease s =
    let op = lease.operation_id in
    let ready = prepare c op s in
    let same = waiter_operations-prepare c op s in
    elim (Option-cases (find_waiter op s.waiters)) [
      | inl e ↦ rw (e, try_acquire) Perm.rfl
      | inr (own, e) ↦
          let known = find_waiter-contains op s.waiters own e in
          let held = record lease { queued_at = own.queued_at } in
          let after = (attempt c ceiling green held ready).0 in
          let done = attempt-perm c ceiling green held ready (rw same known) in
          rw (e, try_acquire)
            (subst (λ l. Perm (operations after) (lease_operations s.leases ++ l)) same done)
    ]

-- A queue that is sorted with one more waiter.
pub queued-perm :
    (w : Waiter) (ws : List Waiter)
    → Perm (waiter_operations (sort_waiters (ws ++ w ∷ []))) (w.operation_id ∷ waiter_operations ws)
queued-perm w ws =
    Perm.map (λ v. v.operation_id)
      (Perm.trans (sort_by-perm queued_before (ws ++ w ∷ [])) (perm_append_singleton w ws))

-- A registration succeeds exactly when its operation is neither leased nor queued; it then adds that
-- operation to the others, and else it changes nothing.
pub register-perm :
    (w : Waiter) (s : WorkState)
    → ((contains w.operation_id (operations s) ≡ false)
        × ((register w s).1 ≡ ok tt)
        × Perm (operations (register w s).0) (w.operation_id ∷ operations s))
      ⊎ ((contains w.operation_id (operations s) ≡ true)
          × ((register w s).1 ≢ ok tt)
          × ((register w s).0 ≡ s))
unfolding register
register-perm w s =
    let op = w.operation_id in
    let both = contains-append op (lease_operations s.leases) (waiter_operations s.waiters) in
    elim (Bool-cases (contains op (lease_operations s.leases))) [
      | inl e ↦ rw e (inr (ground (arith, both), (λ h. cc), refl))
      | inr e ↦ elim (Bool-cases (contains op (waiter_operations s.waiters))) [
        | inl e' ↦ rw (e, e') (inr (ground (arith, both), (λ h. cc), refl))
        | inr e' ↦
            rw (e, e')
              (inl (
                ground (arith, both),
                refl,
                Perm.trans (Perm.append_left (lease_operations s.leases) (queued-perm w s.waiters))
                    (perm_middle (lease_operations s.leases) (waiter_operations s.waiters)),
              ))
      ]
    ]
