-- ===== src/Ledger/Reconcile/Owners.antt =====
-- Who holds what after `reconcile` of sessionpressure/worklease.go: only processes that live and
-- are the ones that were recorded, and all of them.
use session_pressure.Ledger.Results.{ok_inj}
use session_pressure.Limits.{weight}
use session_pressure.Ledger.{
  Lease, Waiter, WorkState, lease_operations, waiter_operations, queued_before,
}
use session_pressure.Common.{
  ℕ, Bool, ◌≡◌, ◌⊎◌, true, some, Option-cases, inl, arith, inr, List, contains, All, map, Any, refl,
  sym, [], ==_refl, All-sort_by, ◌∷◌, sort_by-perm, contains-perm, ◌∙◌, ap,
}
use session_pressure.Ledger.Reconcile.{
  supervisor_owns, lease_stays, waiter_stays, Host, reconcile_leases, reconcile_waiters,
  fill_supervisor, check_lease, Kept, Reconciled, reconcile,
}
use session_pressure.Ledger.Operations.{Caller, ok, legacy_owner_token, err, owner_unresolved}
use mathlib.Core.List.Perm
use session_pressure.Ledger.Reconcile.Soundness.{
  check_lease_ok, reconcile_leases_ok, check_waiter_ok, reconcile_waiters_ok, reconcile_ok,
}
use session_pressure.Ledger.Reconcile.Rounds.{All-Keeps, Keeps}

-- The process lives, and is the one that was recorded.
abbrev pub Attested : Caller → Host → ℕ → ℕ → Type 0
Attested c h pid token = (h.alive pid ≡ true) × (c.identity pid ≡ some token)

-- A lease of the first schema names no process: a live one is trusted.
abbrev pub Trusted : Caller → Host → ℕ → ℕ → Type 0
Trusted c h pid token = Attested c h pid token ⊎ (h.alive pid ≡ true) × (token ≡ legacy_owner_token)

-- The owner of a lease stands for it, or its wrapper does; its weight is that of its class.
abbrev pub Owned : Caller → Host → Lease → Type 0
Owned c h l =
    (Trusted c h l.pid l.owner_identity ⊎ Trusted c h l.supervisor_pid l.supervisor_identity)
    × (l.weight ≡ weight c.cpus c.limits l.class)

abbrev pub Queued : Caller → Host → Waiter → Type 0
Queued c h w = Attested c h w.pid w.owner_identity × (w.weight ≡ weight c.cpus c.limits w.class)

supervisor_owns-Trusted :
    (c : Caller) (h : Host) (l : Lease)
    → supervisor_owns c h l ≡ ok true
    → Trusted c h l.supervisor_pid l.supervisor_identity
unfolding supervisor_owns
supervisor_owns-Trusted c h l e = elim (Option-cases (c.identity l.supervisor_pid)) [
  | inl q ↦ ground arith
  | inr (t, q) ↦ ground arith
]

lease_stays-Trusted :
    (c : Caller) (h : Host) (owns : Bool) (l : Lease)
    → lease_stays c h owns l ≡ ok true
    → Trusted c h l.pid l.owner_identity ⊎ (owns ≡ true)
unfolding lease_stays
lease_stays-Trusted c h owns l e = elim (Option-cases (c.identity l.pid)) [
  | inl q ↦ ground arith
  | inr (t, q) ↦ ground arith
]

waiter_stays-Attested :
    (c : Caller) (h : Host) (w : Waiter)
    → waiter_stays c h w ≡ ok true
    → Attested c h w.pid w.owner_identity
unfolding waiter_stays
waiter_stays-Attested c h w e = elim (Option-cases (c.identity w.pid)) [
  | inl q ↦ ground arith
  | inr (t, q) ↦ ground arith
]

-- A live owner keeps its lease, or the recorded identity is empty.
lease_stays_live :
    (c : Caller) (h : Host) (owns : Bool) (l : Lease)
    → Attested c h l.pid l.owner_identity
    → (lease_stays c h owns l ≡ ok true) ⊎ (lease_stays c h owns l ≡ err owner_unresolved)
unfolding lease_stays
lease_stays_live c h owns l (al, same) = rw (al, same, lease_stays) (ground arith)

lease_stays-Attested_kept :
    (c : Caller) (h : Host) (owns stays : Bool) (l : Lease)
    → lease_stays c h owns l ≡ ok stays
    → Attested c h l.pid l.owner_identity
    → stays ≡ true
lease_stays-Attested_kept c h owns stays l e a = elim (lease_stays_live c h owns l a) [
  | inl k ↦ sym (ok_inj true stays (sym k ∙ e))
  | inr k ↦ cc
]

waiter_stays-Attested_kept :
    (c : Caller) (h : Host) (stays : Bool) (w : Waiter)
    → waiter_stays c h w ≡ ok stays
    → Attested c h w.pid w.owner_identity
    → stays ≡ true
unfolding waiter_stays
waiter_stays-Attested_kept c h stays w e a = elim (Option-cases (c.identity w.pid)) [
  | inl q ↦ ground arith
  | inr (t, q) ↦ ground arith
]

lease-Owned :
    (c : Caller) (h : Host) (ids ops : List ℕ) (l : Lease) (stays : Bool)
    → check_lease c h ids ops l ≡ ok stays
    → stays ≡ true
    → Owned c h (record l { weight = weight c.cpus c.limits l.class })
unfolding supervisor_owns
lease-Owned c h ids ops l stays e yes_stays =
    let (_, _, owns, e₁, e₂) = check_lease_ok c h ids ops l stays e in
    (
      elim (lease_stays-Trusted c h owns l (e₂ ∙ ap ok yes_stays)) [
        | inl t ↦ inl t
        | inr o ↦ inr (supervisor_owns-Trusted c h l (e₁ ∙ ap ok o))
      ],
      refl,
    )

leases-Owned :
    (c : Caller) (h : Host) (legacy : Bool) (ids ops : List ℕ) (ls : List Lease) (k : Kept Lease)
    → reconcile_leases c h legacy ids ops ls ≡ ok k
    → All (Owned c h) k.items
unfolding reconcile_leases
leases-Owned c h legacy ids ops [] k e = rw (sym (ok_inj _ k e)) tt
leases-Owned c h legacy ids ops (raw ∷ ls) k e =
    let (stays, e₁, rest, e₂, kept) = reconcile_leases_ok c h legacy ids ops raw ls k e in
    let l = fill_supervisor raw in
    All-Keeps (Owned c h) stays _ rest.items k.items kept (lease-Owned c h ids ops l stays e₁)
      (leases-Owned c h legacy (l.id ∷ ids) (l.operation_id ∷ ops) ls rest e₂)

waiters-Queued :
    (c : Caller) (h : Host) (ops : List ℕ) (ws : List Waiter) (k : Kept Waiter)
    → reconcile_waiters c h ops ws ≡ ok k
    → All (Queued c h) k.items
unfolding reconcile_waiters
waiters-Queued c h ops [] k e = rw (sym (ok_inj _ k e)) tt
waiters-Queued c h ops (w ∷ ws) k e =
    let (stays, e₁, rest, e₂, kept) = reconcile_waiters_ok c h ops w ws k e in
    let found = check_waiter_ok c h ops w stays e₁ in
    All-Keeps (Queued c h) stays _ rest.items k.items kept
      (λ s. (waiter_stays-Attested c h w (found.3 ∙ ap ok s), refl))
      (waiters-Queued c h (w.operation_id ∷ ops) ws rest e₂)

-- After a reconciliation every lease is held by a live process that is the one recorded for it, its
-- owner or its wrapper (a live process is trusted where the first schema recorded none), and every
-- waiter by its owner; each weighs what the limits give its class.
pub reconcile-Owned :
    (c : Caller) (h : Host) (s : WorkState) (r : Reconciled)
    → reconcile c h s ≡ ok r
    → All (Owned c h) r.state.leases × All (Queued c h) r.state.waiters
reconcile-Owned c h s r e =
    let (ls, e₁, ws, e₂, same_ls, same_ws) = reconcile_ok c h s r e in
    (
      rw same_ls (leases-Owned c h s.legacy_active [] [] s.leases ls e₁),
      rw same_ws (
          All-sort_by queued_before _ ws.items
            (waiters-Queued c h (lease_operations s.leases) s.waiters ws e₂)),
    )

-- A round that keeps its item adds its operation, and none loses one.
Keeps-contains :
    {A : Type 0} (f : A → ℕ) (op : ℕ) (stays : Bool) (x : A) (rest items : List A)
    → Keeps stays x rest items
    → ((f x ≡ op) × (stays ≡ true)) ⊎ (contains op (map f rest) ≡ true)
    → contains op (map f items) ≡ true
Keeps-contains f op stays x rest items (inl (_, e)) (inl (same, _)) = rw (e, same, ==_refl op) refl
Keeps-contains f op stays x rest items (inl (_, e)) (inr m) = rw e (ground arith)
Keeps-contains f op stays x rest items (inr (gone, e)) (inl (_, stay)) = cc
Keeps-contains f op stays x rest items (inr (_, e)) (inr m) = rw e m

-- An operation of a lease whose owner lives, and of a waiter whose owner lives.
abbrev pub HeldBy : Caller → Host → ℕ → Lease → Type 0
HeldBy c h op l = (l.operation_id ≡ op) × Attested c h l.pid l.owner_identity

abbrev pub AwaitedBy : Caller → Host → ℕ → Waiter → Type 0
AwaitedBy c h op w = (w.operation_id ≡ op) × Attested c h w.pid w.owner_identity

leases-keep :
    (c : Caller) (h : Host) (legacy : Bool) (ids ops : List ℕ) (ls : List Lease) (k : Kept Lease)
    (op : ℕ)
    → reconcile_leases c h legacy ids ops ls ≡ ok k
    → Any (HeldBy c h op) ls
    → contains op (lease_operations k.items) ≡ true
unfolding fill_supervisor
leases-keep c h legacy ids ops [] k op e held = elim held [ ]
leases-keep c h legacy ids ops (raw ∷ ls) k op e held =
    let (stays, e₁, rest, e₂, kept) = reconcile_leases_ok c h legacy ids ops raw ls k e in
    let l = fill_supervisor raw in
    let (_, _, owns, _, e₃) = check_lease_ok c h ids ops l stays e₁ in
    Keeps-contains (λ x. x.operation_id) op stays _ rest.items k.items kept
      (elim held [
        | inl (same, a) ↦ inl (same, lease_stays-Attested_kept c h owns stays l e₃ a)
        | inr more ↦
            inr (leases-keep c h legacy (l.id ∷ ids) (l.operation_id ∷ ops) ls rest op e₂ more)
      ])

waiters-keep :
    (c : Caller) (h : Host) (ops : List ℕ) (ws : List Waiter) (k : Kept Waiter) (op : ℕ)
    → reconcile_waiters c h ops ws ≡ ok k
    → Any (AwaitedBy c h op) ws
    → contains op (waiter_operations k.items) ≡ true
waiters-keep c h ops [] k op e held = elim held [ ]
waiters-keep c h ops (w ∷ ws) k op e held =
    let (stays, e₁, rest, e₂, kept) = reconcile_waiters_ok c h ops w ws k e in
    let (_, _, _, e₃) = check_waiter_ok c h ops w stays e₁ in
    Keeps-contains (λ x. x.operation_id) op stays _ rest.items k.items kept
      (elim held [
        | inl (same, a) ↦ inl (same, waiter_stays-Attested_kept c h stays w e₃ a)
        | inr more ↦ inr (waiters-keep c h (w.operation_id ∷ ops) ws rest op e₂ more)
      ])

-- A reconciliation that succeeds drops no live work: an operation under lease, or queued, whose
-- owner lives and is the process recorded for it is still under lease, or queued, after it.
pub reconcile_keeps_live :
    (c : Caller) (h : Host) (s : WorkState) (r : Reconciled) (op : ℕ)
    → reconcile c h s ≡ ok r
    → Any (HeldBy c h op) s.leases ⊎ Any (AwaitedBy c h op) s.waiters
    → (contains op (lease_operations r.state.leases) ≡ true)
      ⊎ (contains op (waiter_operations r.state.waiters) ≡ true)
reconcile_keeps_live c h s r op e held =
    let (ls, e₁, ws, e₂, same_ls, same_ws) = reconcile_ok c h s r e in
    let sorted = Perm.map (λ w. w.operation_id) (sort_by-perm queued_before ws.items) in
    elim held [
      | inl m ↦ inl (rw same_ls (leases-keep c h s.legacy_active [] [] s.leases ls op e₁ m))
      | inr m ↦ inr (
          rw same_ws (
            contains-perm op _ _ sorted
            ∙ waiters-keep c h (lease_operations s.leases) s.waiters ws op e₂ m))
    ]
