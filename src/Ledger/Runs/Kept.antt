-- ===== src/Ledger/Runs/Kept.antt =====
-- Every step keeps the ledger sound, hence every run does.
use session_pressure.Ledger.Runs.Handover.{reserve-Sound}
use session_pressure.Ledger.Select.{GreenWindow}
use session_pressure.Limits.{WorkClass}
use session_pressure.Ledger.Reconcile.Soundness.{reconcile-Sound}
use session_pressure.Ledger.Requests.{override_waiters, clear_waiter_override, plan, pin, Promotion}
use session_pressure.Ledger.Runs.{
  Sound, Step, acquires, registers, attempts, cancels, releases, parks, binds, reserves, drops,
  holds, lets_go, overrides, clears_override, observes_latch, AcquiresNew, AllAcquireNew, Run, done,
  then_step, then_reconcile,
}
use mathlib.Core.List.{Sublist, map-append, append_assoc, perm_middle}
use session_pressure.Ledger.Ownership.{
  update_lease, park_lease, bind_pid, drop_lease, hold_admission, release_admission, park_stamp,
  Notice, find_lease, is_park_pinned,
}
use session_pressure.Ledger.{
  WorkState, Lease, Waiter, lease_operations, waiter_operations, queued_before,
}
use session_pressure.Common.{
  Bool, ℕ, List, ◌≡◌, inl, Distinct-sublist, keep_if, ◌∷◌, Distinct-perm, contains, not,
  map-keep_if-sublist, Bool-cases, inr, false, ◌==◌, refl, [], ◌⊎◌, All-keep_if, ◌++◌, All-sort_by,
  arith, All-append, Option-cases, ◌&&◌,
}
use session_pressure.Ledger.Operations.{
  new_waiter_record, register, acquire, cancel, Caller, ok, err, check_caller, require,
  valid_private_id, invalid_id, identity_for_pid, sort_waiters, release, Result,
}
use session_pressure.Ledger.Conservation.{operations, try_acquire-perm, register-perm}
use session_pressure.Ledger.Override.Pins.{advance_pins}
use mathlib.Core.List.Sublist
use session_pressure.Ledger.Results.{bind_ok}
use session_pressure.Ledger.Bypasses.{WithinBypasses, try_acquire-WithinBypasses}

new_waiter_record_unbypassed :
    (c : Caller) (class : WorkClass) (op : ℕ) (w : Waiter)
    → new_waiter_record c class op ≡ ok w
    → w.bypass_count ≡ 0
unfolding new_waiter_record
new_waiter_record_unbypassed c class op w h =
    let (_, _, h₁) = bind_ok (check_caller c) _ w h in
    let (_, _, h₂) = bind_ok (require (valid_private_id op) invalid_id) _ w h₁ in
    let (owner, _, h₃) = bind_ok (identity_for_pid c c.pid) _ w h₂ in cc

register-WithinBypasses :
    (w : Waiter) (s : WorkState)
    → w.bypass_count ≡ 0
    → WithinBypasses s.waiters
    → WithinBypasses (register w s).0.waiters
unfolding register
register-WithinBypasses w s none_yet h =
    let op = w.operation_id in
    let sorted : WithinBypasses (sort_waiters (s.waiters ++ w ∷ [])) =
      All-sort_by queued_before _ (s.waiters ++ w ∷ [])
        (All-append _ s.waiters (w ∷ []) h (omega (arith, none_yet), tt)) in
    elim (Bool-cases (contains op (lease_operations s.leases))) [
      | inl e ↦ rw e h
      | inr e ↦ elim (Bool-cases (contains op (waiter_operations s.waiters))) [
        | inl e' ↦ rw (e, e') h
        | inr e' ↦ rw (e, e') sorted
      ]
    ]

register-Sound :
    (w : Waiter) (s : WorkState) → w.bypass_count ≡ 0 → Sound s → Sound (register w s).0
unfolding register
register-Sound w s none_yet h = elim (register-perm w s) [
  | inl (fresh, _, p) ↦ (
    Distinct-perm (operations (register w s).0) (w.operation_id ∷ operations s) p (fresh, h.0),
    register-WithinBypasses w s none_yet h.1,
  )
  | inr (_, _, same) ↦ rw same h
]

-- Acquiring adds the lease at the end, or changes nothing.
acquire-cases :
    (c : Caller) (ceiling : ℕ) (green : GreenWindow) (l : Lease) (s : WorkState)
    → ((acquire c ceiling green l s).0 ≡ s)
      ⊎ ((acquire c ceiling green l s).0 ≡ record s { leases = s.leases ++ l ∷ [] })
unfolding acquire
acquire-cases c ceiling green l s = ground arith

acquire-Sound :
    (c : Caller) (ceiling : ℕ) (green : GreenWindow) (l : Lease) (s : WorkState)
    → contains l.operation_id (operations s) ≡ false
    → Sound s
    → Sound (acquire c ceiling green l s).0
acquire-Sound c ceiling green l s new h = elim (acquire-cases c ceiling green l s) [
  | inl same ↦ rw same h
  | inr added ↦ rw added (
    Distinct-perm _ (l.operation_id ∷ operations s)
        (rw
          (
            map-append (λ k. k.operation_id) s.leases (l ∷ []),
            append_assoc (lease_operations s.leases) (l.operation_id ∷ [])
                (waiter_operations s.waiters),
          )
          (perm_middle (lease_operations s.leases) (waiter_operations s.waiters)))
        (new, h.0),
    h.1,
  )
]

-- With fewer operations and a queue within bounds, a sound state stays sound.
fewer-Sound :
    (s s' : WorkState)
    → Sublist (operations s') (operations s)
    → WithinBypasses s'.waiters
    → Sound s
    → Sound s'
fewer-Sound s s' sub w h = (Distinct-sublist (operations s') (operations s) sub h.0, w)

cancel-Sound : (op now : ℕ) (s : WorkState) → Sound s → Sound (cancel op now s)
unfolding cancel
cancel-Sound op now s h =
    let ws = keep_if (λ w. not (w.operation_id == op)) s.waiters in
    let s₁ = record s { waiters = ws } in
    let p = advance_pins s₁ now in
    fewer-Sound s (cancel op now s)
      (rw (p.1, p.2)
        (Sublist.append (Sublist.refl (lease_operations s.leases))
          (map-keep_if-sublist (λ w. w.operation_id) (λ w. not (w.operation_id == op)) s.waiters)))
      (rw p.1 (All-keep_if _ (λ w. not (w.operation_id == op)) s.waiters h.1)) h

-- Leases are dropped, and the queue stays.
keep_leases-Sound :
    (p : Lease → Bool) (s : WorkState) → Sound s → Sound (record s { leases = keep_if p s.leases })
keep_leases-Sound p s h =
    fewer-Sound s (record s { leases = keep_if p s.leases })
      (Sublist.append (map-keep_if-sublist (λ l. l.operation_id) p s.leases)
        (Sublist.refl (waiter_operations s.waiters)))
      h.1 h

-- A lease is changed, and its operation stays.
pub lease_operations-update :
    (id : ℕ) (f : Lease → Lease) (ls : List Lease)
    → ((l : Lease) → (f l).operation_id ≡ l.operation_id)
    → lease_operations (update_lease id f ls) ≡ lease_operations ls
unfolding update_lease
lease_operations-update id f [] same = refl
lease_operations-update id f (l ∷ ls) same = elim (Bool-cases (l.id == id)) [
  | inl e ↦ rw (e, same l) refl
  | inr e ↦ rw (e, lease_operations-update id f ls same) refl
]

update_lease-Sound :
    (id : ℕ) (f : Lease → Lease) (s : WorkState)
    → ((l : Lease) → (f l).operation_id ≡ l.operation_id)
    → Sound s
    → Sound (record s { leases = update_lease id f s.leases })
update_lease-Sound id f s same h = (rw (lease_operations-update id f s.leases same) h.0, h.1)

park-Sound :
    (id : ℕ) (parked : Bool) (at : ℕ) (s : WorkState)
    → Sound s
    → Sound (park_lease id parked at s).0
unfolding park_lease
park-Sound id parked at s h =
    let changed = update_lease-Sound id (park_stamp parked at) s (λ l. refl) h in
    elim (Option-cases (find_lease id s.leases)) [
      | inl e ↦ rw (e, park_lease) h
      | inr (l, e) ↦ elim (Bool-cases (parked && is_park_pinned s)) [
        | inl e' ↦ rw (e, park_lease, e') h
        | inr e' ↦ rw (e, park_lease, e') changed
      ]
    ]

bind-Sound : (id pid owner : ℕ) (s : WorkState) → Sound s → Sound (bind_pid id pid owner s).0
unfolding bind_pid
bind-Sound id pid owner s h = elim (Option-cases (find_lease id s.leases)) [
  | inl e ↦ rw (e, bind_pid) h
  | inr (l, e) ↦
      rw (e, bind_pid)
        (update_lease-Sound id (λ k. record k { pid = pid; owner_identity = owner }) s (λ k. refl)
          h)
]

pub drop-cases :
    (audited : ℕ → Bool) (op : ℕ) (s : WorkState)
    → ((drop_lease audited op s).0 ≡ s)
      ⊎ ((drop_lease audited op s).0
          ≡ record s { leases = keep_if (λ l. not (l.operation_id == op)) s.leases })
unfolding drop_lease
drop-cases audited op s = ground arith

-- The holds are beside the queue and the leases.
pub hold-apart :
    (c : Caller) (op : ℕ) (class : WorkClass) (n : Notice) (s : WorkState)
    → let s' = (hold_admission c op class n s).0 in
      (s'.leases ≡ s.leases) × (s'.waiters ≡ s.waiters)
unfolding hold_admission
hold-apart c op class n s = elim (Option-cases (c.identity c.pid)) [
  | inl e ↦ rw (e, hold_admission) (ground arith, ground arith)
  | inr (owner, e) ↦ rw (e, hold_admission) (ground arith, ground arith)
]

pub release_admission-apart :
    (op : ℕ) (s : WorkState)
    → let s' = (release_admission op s).0 in (s'.leases ≡ s.leases) × (s'.waiters ≡ s.waiters)
unfolding release_admission
release_admission-apart op s = elim (Bool-cases (not (valid_private_id op))) [
  | inl e ↦ rw e (refl, refl)
  | inr e ↦ rw e (refl, refl)
]

pin-apart :
    (now : ℕ) (ops : List ℕ) (s : WorkState)
    → ((pin now ops s).leases ≡ s.leases) × ((pin now ops s).waiters ≡ s.waiters)
unfolding pin
pin-apart now [] s = (refl, refl)
pin-apart now (op ∷ ops) s = (refl, refl)

-- The requests of operators change the pins alone.
pub override-apart :
    (c : Caller) (audited : ℕ → Bool) (all append_pinned : Bool) (ops : List ℕ) (s : WorkState)
    → let s' = (override_waiters c audited all append_pinned ops s).0 in
      (s'.leases ≡ s.leases) × (s'.waiters ≡ s.waiters)
unfolding override_waiters
override-apart c audited all append_pinned ops s = go (plan c audited all append_pinned ops s) refl
  where
    go :
        (r : Result (List Waiter × List Promotion))
        → plan c audited all append_pinned ops s ≡ r
        → let s' = (override_waiters c audited all append_pinned ops s).0 in
          (s'.leases ≡ s.leases) × (s'.waiters ≡ s.waiters)
    go (err _) e = rw (e, override_waiters) (refl, refl)
    go (ok p) e = rw (e, override_waiters) (pin-apart c.now (waiter_operations p.0) s)

pub clear_waiter_override-apart :
    (audited : ℕ → Bool) (s : WorkState)
    → let s' = (clear_waiter_override audited s).0 in
      (s'.leases ≡ s.leases) × (s'.waiters ≡ s.waiters)
unfolding clear_waiter_override
clear_waiter_override-apart audited s = (ground arith, ground arith)

-- A step keeps the ledger sound, if an operation that it acquires for is new.
pub Step-Sound : (s t : WorkState) (step : Step s t) → AcquiresNew s t step → Sound s → Sound t
unfolding release
Step-Sound s t (acquires c ceiling green l s') new h = acquire-Sound c ceiling green l s' new h
Step-Sound s t (registers c class op w s' made) new h =
    register-Sound w s' (new_waiter_record_unbypassed c class op w made) h
Step-Sound s t (attempts c ceiling green l s') new h = (
  Distinct-perm _ (operations s') (try_acquire-perm c ceiling green l s') h.0,
  try_acquire-WithinBypasses c ceiling green l s' h.1,
)
Step-Sound s t (cancels op now s') new h = cancel-Sound op now s' h
Step-Sound s t (releases id s') new h = keep_leases-Sound (λ l. not (l.id == id)) s' h
Step-Sound s t (parks id parked at s') new h = park-Sound id parked at s' h
Step-Sound s t (binds id pid owner s') new h = bind-Sound id pid owner s' h
Step-Sound s t (reserves c owner own s') new h = reserve-Sound c owner own s' h
Step-Sound s t (drops audited op s') new h = elim (drop-cases audited op s') [
  | inl same ↦ rw same h
  | inr dropped ↦ rw dropped (keep_leases-Sound (λ l. not (l.operation_id == op)) s' h)
]
Step-Sound s t (holds c op class n s') new h = let p = hold-apart c op class n s' in rw (p.0, p.1) h
Step-Sound s t (lets_go op s') new h = let p = release_admission-apart op s' in rw (p.0, p.1) h
Step-Sound s t (overrides c audited all append_pinned ops s') new h =
    let p = override-apart c audited all append_pinned ops s' in rw (p.0, p.1) h
Step-Sound s t (clears_override audited s') new h =
    let p = clear_waiter_override-apart audited s' in rw (p.0, p.1) h
Step-Sound s t (observes_latch block release o now s') new h = h

-- Along every run of the mutations that withState performs under the ledger's lock, by any processes
-- in any order, with the reconciliations that stand before them at any places among them, a sound
-- ledger stays sound, provided that each acquisition without a queue place is for an operation that
-- stands neither under lease nor in the queue at that time: no operation stands twice under lease or in
-- the queue, and no waiter has been bypassed more than the maximum of four times. The mutations are to
-- acquire, register, attempt, cancel, release, park, bind, reserve, drop, hold and release an admission,
-- promote, clear the promotion, and observe the latch.
pub Run-Sound : (s t : WorkState) (r : Run s t) → AllAcquireNew s t r → Sound s → Sound t
Run-Sound s t (done _) new h = h
Run-Sound s t (then_reconcile _ u c h' r run e) new h = reconcile-Sound c h' u r e
Run-Sound s t (then_step _ u _ r step) new h = Step-Sound u t step new.1 (Run-Sound s u r new.0 h)
