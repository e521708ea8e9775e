-- ===== src/Ledger/Runs/Admissions.antt =====
-- The moves of the mutations that admit, queue and give up, sessionpressure/worklease.go.
use session_pressure.Ledger.Conservation.{
  operations, queued-perm, advance_parts, waiter_operations-prepare, waiter_operations-charge,
  find_waiter-contains,
}
use session_pressure.Ledger.{
  Waiter, Lease, WorkState, waiter_operations, lease_operations, Selection, used_weight,
}
use session_pressure.Ledger.Select.{GreenWindow}
use session_pressure.Ledger.Operations.{
  acquire, Caller, register, drop_waiter, sort_waiters, take_lease, attempt, try_acquire, cancel,
  choose, prepare, find_waiter, charge_bypasses, shadow_of, effective_capacity,
}
use session_pressure.Common.{
  ℕ, Bool, List, false, is_empty, ◌≢◌, Distinct, ◌≡◌, true, contains, Bool-cases, ◌∷◌, ◌⊎◌, not, [],
  ◌++◌, inl, ◌==◌, arith, inr, ◌&&◌, refl, contains-append, sym, contains-perm, ==→eq, keep_if,
  Option-cases, ap, ◌||◌, same?, some, clash, subst, ◌∙◌, Distinct-append_right,
  Distinct-append_apart,
}
use session_pressure.Ledger.Runs.Moves.{
  same-Move, enqueues-Move, starts-Move, gives_up-Move, first_left, later_left,
}
use session_pressure.Ledger.Runs.Phases.{
  phase, Move, stays, admits, contains-keep_if-not, contains-append_one, queued, phase_of,
}

idle_queue :
    (o : ℕ) (ws : List Waiter) → is_empty ws ≡ true → contains o (waiter_operations ws) ≡ false
idle_queue o [] h = refl
idle_queue o (w ∷ ws) h = cc

not_queued : (b : Bool) → phase_of b false ≢ queued
not_queued true = λ h. cc
not_queued false = λ h. cc

-- Acquiring adds a lease only where nobody waits.
acquire_idle :
    (c : Caller) (ceiling : ℕ) (green : GreenWindow) (l : Lease) (s : WorkState)
    → ((acquire c ceiling green l s).0 ≡ s)
      ⊎ ((is_empty s.waiters ≡ true)
          × ((acquire c ceiling green l s).0 ≡ record s { leases = s.leases ++ l ∷ [] }))
unfolding acquire
acquire_idle c ceiling green l s = ground arith

pub acquire-Move :
    (c : Caller) (ceiling : ℕ) (green : GreenWindow) (l : Lease) (s : WorkState)
    → contains l.operation_id (operations s) ≡ false
    → Move (phase s) (phase (acquire c ceiling green l s).0)
acquire-Move c ceiling green l s new = elim (acquire_idle c ceiling green l s) [
  | inl same ↦ rw same (stays (λ o. refl))
  | inr (idle, added) ↦
      let op = l.operation_id in
      let both = contains-append op (lease_operations s.leases) (waiter_operations s.waiters) in
      let nl : contains op (lease_operations s.leases) ≡ false = ground (arith, both) in
      rw added (
        admits op (rw (nl, idle_queue op s.waiters idle) refl)
          (λ o. rw (idle_queue o s.waiters idle) (not_queued _))
          (λ o.
            rw (contains-append_one (λ k. k.operation_id) o l s.leases)
              (elim (Bool-cases (o == op)) [ inl e ↦ rw e refl | inr e ↦ rw e refl ])))
]

pub register-Move : (w : Waiter) (s : WorkState) → Move (phase s) (phase (register w s).0)
unfolding register
register-Move w s =
    let op = w.operation_id in
    elim (Bool-cases (contains op (lease_operations s.leases))) [
      | inl e ↦ rw e (stays (λ o. refl))
      | inr e ↦ elim (Bool-cases (contains op (waiter_operations s.waiters))) [
        | inl e' ↦ rw (e, e') (stays (λ o. refl))
        | inr e' ↦
            let t = record s { waiters = sort_waiters (s.waiters ++ w ∷ []) } in
            let there : Move (phase s) (phase t) =
              enqueues-Move s t op e e' refl (λ o. contains-perm o _ _ (queued-perm w s.waiters)) in
            rw (e, e') there
      ]
    ]

drop_waiter_left :
    (op o : ℕ) (ws : List Waiter)
    → Distinct (waiter_operations ws)
    → contains op (waiter_operations ws) ≡ true
    → contains o (waiter_operations (drop_waiter op ws))
      ≡ (not (o == op) && contains o (waiter_operations ws))
unfolding drop_waiter
drop_waiter_left op o [] d h = cc
drop_waiter_left op o (w ∷ ws) d h = elim (Bool-cases (w.operation_id == op)) [
  | inl e ↦
      rw (e, sym (==→eq w.operation_id op e))
        (first_left w.operation_id o (waiter_operations ws) d.0)
  | inr e ↦
      let there : contains op (waiter_operations ws) ≡ true = ground arith in
      rw (e, drop_waiter_left op o ws d.1 there)
        (later_left op w.operation_id o (waiter_operations ws) d.0 there)
]

-- What taking a lease does to the leases and to the queue.
take_lease_parts :
    (now : ℕ) (sel shadow : Selection) (l : Lease) (s : WorkState) (o : ℕ)
    → Distinct (waiter_operations s.waiters)
    → contains l.operation_id (waiter_operations s.waiters) ≡ true
    → let t = take_lease now sel shadow l s in
      (contains o (lease_operations t.leases)
        ≡ (o == l.operation_id || contains o (lease_operations s.leases)))
      × (contains o (waiter_operations t.waiters)
          ≡ (not (o == l.operation_id) && contains o (waiter_operations s.waiters)))
unfolding take_lease
take_lease_parts now sel shadow l s o d there =
    let op = l.operation_id in
    let ws = charge_bypasses now sel.bypassed s.waiters in
    let charged = waiter_operations-charge now sel.bypassed s.waiters in
    let s₁ = record s {
      waiters = drop_waiter op ws;
      last_selection = sel;
      last_shadow_selection = shadow;
    } in
    let p = advance_parts s₁ now in
    (
      rw p.1 (contains-append_one (λ k. k.operation_id) o l s.leases),
      rw p.0 (
          drop_waiter_left op o ws (subst Distinct (sym charged) d)
            (ap (contains op) charged ∙ there)
          ∙ ap (λ x. not (o == op) && contains o x) charged),
    )

attempt-Move :
    (c : Caller) (ceiling : ℕ) (green : GreenWindow) (l : Lease) (s r : WorkState)
    → lease_operations r.leases ≡ lease_operations s.leases
    → waiter_operations r.waiters ≡ waiter_operations s.waiters
    → Distinct (operations s)
    → contains l.operation_id (waiter_operations s.waiters) ≡ true
    → Move (phase s) (phase (attempt c ceiling green l r).0)
unfolding attempt
attempt-Move c ceiling green l s r same_ls same_ws d there =
    let op = l.operation_id in
    let ls = lease_operations s.leases in
    let sel = choose c ceiling green r in
    elim (Bool-cases (same? sel.selected (some op))) [
      | inl e ↦
          let distinct : Distinct (waiter_operations r.waiters) =
            subst Distinct (sym same_ws)
              (Distinct-append_right ls (waiter_operations s.waiters) d) in
          let shadow =
            shadow_of c.policy r.waiters (used_weight r.leases) (effective_capacity c ceiling)
              c.now in
          let parts = λ (o : ℕ).
            take_lease_parts c.now sel shadow l r o distinct (ap (contains op) same_ws ∙ there) in
          let free : contains op ls ≡ false = elim (Bool-cases (contains op ls)) [
            | inl both ↦ absurd (
                clash (contains op (waiter_operations s.waiters)) there
                  (Distinct-append_apart op ls (waiter_operations s.waiters) d both))
            | inr nl ↦ nl
          ] in
          rw e (
            starts-Move s (take_lease c.now sel shadow l r) op free there
              (λ o. (parts o).0 ∙ ap (λ x. o == op || contains o x) same_ls)
              (λ o. (parts o).1 ∙ ap (λ x. not (o == op) && contains o x) same_ws))
      | inr e ↦ rw e (same-Move s r same_ls same_ws)
    ]

pub try_acquire-Move :
    (c : Caller) (ceiling : ℕ) (green : GreenWindow) (l : Lease) (s : WorkState)
    → Distinct (operations s)
    → Move (phase s) (phase (try_acquire c ceiling green l s).0)
unfolding try_acquire prepare
try_acquire-Move c ceiling green l s d =
    let op = l.operation_id in
    elim (Option-cases (find_waiter op s.waiters)) [
      | inl e ↦ rw (e, try_acquire) (stays (λ o. refl))
      | inr (own, e) ↦
          rw (e, try_acquire)
            (attempt-Move c ceiling green (record l { queued_at = own.queued_at }) s
              (prepare c op s) refl (waiter_operations-prepare c op s) d
              (find_waiter-contains op s.waiters own e))
    ]

pub cancel-Move :
    (op now : ℕ) (s : WorkState)
    → Distinct (operations s)
    → Move (phase s) (phase (cancel op now s))
unfolding cancel
cancel-Move op now s d =
    let s₁ = record s { waiters = keep_if (λ w. not (w.operation_id == op)) s.waiters } in
    let p = advance_parts s₁ now in
    gives_up-Move s (cancel op now s) op d (ap lease_operations p.1) (λ o.
      ap (λ ws. contains o (waiter_operations ws)) p.0
      ∙ contains-keep_if-not (λ w. w.operation_id) op o s.waiters)
