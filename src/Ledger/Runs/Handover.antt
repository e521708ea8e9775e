-- ===== src/Ledger/Runs/Handover.antt =====
-- A lease that goes back into the queue: ReserveForPressure moves its operation and loses none.
use mathlib.Core.List.{perm_middle}
use session_pressure.Ledger.Runs.{Sound}
use session_pressure.Ledger.Operations.{Caller, sort_waiters}
use session_pressure.Ledger.{Lease, lease_operations, WorkState, waiter_operations, queued_before}
use session_pressure.Common.{
  ℕ, List, is_some, Distinct, ◌≡◌, true, contains, ◌∷◌, keep_if, Bool-cases, not, ◌==◌, inl, false,
  arith, inr, [], Bool, refl, ◌||◌, ◌⊎◌, ◌++◌, Distinct-append_left, Distinct-append_apart,
  Distinct-sublist, map-keep_if-sublist, Distinct-perm, contains-append, All-sort_by, All-append,
  ◌≢◌, subst, ==→eq,
}
use session_pressure.Ledger.Ownership.{
  find_lease, all_belong, reserve_for_pressure, pressure_waiter,
}
use session_pressure.Ledger.Conservation.{operations, queued-perm}
use mathlib.Core.List.Perm
use mathlib.Core.List.Sublist

-- A lease that is found by an identity whose leases are all of one operation is of that operation.
pub owned_contains :
    (id op : ℕ) (ls : List Lease)
    → is_some (find_lease id ls) ≡ true
    → all_belong id op ls ≡ true
    → contains op (lease_operations ls) ≡ true
unfolding find_lease all_belong
owned_contains id op [] f b = cc
owned_contains id op (l ∷ ls) f b = elim (Bool-cases (l.id == id)) [
  | inl e ↦ ground arith
  | inr e ↦ ground (arith, owned_contains id op ls)
]

unkept :
    (a : ℕ) (p : Lease → Bool) (ls : List Lease)
    → contains a (lease_operations ls) ≡ false
    → contains a (lease_operations (keep_if p ls)) ≡ false
unkept a p [] h = refl
unkept a p (l ∷ ls) h = ground (arith, unkept a p ls)

-- With no operation twice, the operation goes with the leases of its identity.
owned_dropped :
    (id op : ℕ) (ls : List Lease)
    → Distinct (lease_operations ls)
    → is_some (find_lease id ls) ≡ true
    → all_belong id op ls ≡ true
    → contains op (lease_operations (keep_if (λ l. not (l.id == id)) ls)) ≡ false
unfolding find_lease all_belong
owned_dropped id op [] d f b = cc
owned_dropped id op (l ∷ ls) d f b = elim (Bool-cases (l.id == id)) [
  | inl e ↦ rw e (
      unkept op (λ k. not (k.id == id)) ls
        (subst (λ a. contains a (lease_operations ls) ≡ false) (ground arith) d.0))
  | inr e ↦
      let there : contains op (lease_operations ls) ≡ true =
        owned_contains id op ls (ground arith) (ground arith) in
      let gone = owned_dropped id op ls d.1 (ground arith) (ground arith) in
      rw (e, gone) (other there)
]
  where
    apart : contains l.operation_id (lease_operations ls) ≢ true
    apart x = let y = d.0 in cc

    other : contains op (lease_operations ls) ≡ true → (op == l.operation_id || false) ≡ false
    other there = elim (Bool-cases (op == l.operation_id)) [
      | inl e ↦ absurd (
          apart (
            subst (λ a. contains a (lease_operations ls) ≡ true) (==→eq op l.operation_id e) there))
      | inr e ↦ rw e refl
    ]

-- The state that a handover leaves.
abbrev pub handed_over : Caller → ℕ → Lease → WorkState → WorkState
handed_over c owner own s = record s {
  leases = keep_if (λ l. not (l.id == own.id)) s.leases;
  waiters = sort_waiters (s.waiters ++ pressure_waiter c owner own ∷ []);
}

-- ReserveForPressure succeeds only for a lease that is there, all leases of whose identity are of
-- its operation; else nothing changes.
pub reserve-cases :
    (c : Caller) (owner : ℕ) (own : Lease) (s : WorkState)
    → ((reserve_for_pressure c owner own s).0 ≡ s)
      ⊎ ((is_some (find_lease own.id s.leases) ≡ true)
          × (all_belong own.id own.operation_id s.leases ≡ true)
          × ((reserve_for_pressure c owner own s).0 ≡ handed_over c owner own s))
unfolding reserve_for_pressure
reserve-cases c owner own s = ground arith

pub reserve-Sound :
    (c : Caller) (owner : ℕ) (own : Lease) (s : WorkState)
    → Sound s
    → Sound (reserve_for_pressure c owner own s).0
unfolding pressure_waiter
reserve-Sound c owner own s (d, w) = elim (reserve-cases c owner own s) [
  | inl same ↦ rw same (d, w)
  | inr (there, whole, moved) ↦
      let op = own.operation_id in
      let kept = lease_operations (keep_if (λ l. not (l.id == own.id)) s.leases) in
      let queued = waiter_operations s.waiters in
      let leased = owned_contains own.id op s.leases there whole in
      let gone =
        owned_dropped own.id op s.leases (Distinct-append_left (lease_operations s.leases) queued d)
          there whole in
      let apart = Distinct-append_apart op (lease_operations s.leases) queued d leased in
      let rest =
        Distinct-sublist (kept ++ queued) (operations s)
          (Sublist.append
            (map-keep_if-sublist (λ l. l.operation_id) (λ l. not (l.id == own.id)) s.leases)
            (Sublist.refl queued))
          d in
      rw moved (
        Distinct-perm _ (op ∷ (kept ++ queued))
            (Perm.trans
              (Perm.append_left kept (queued-perm (pressure_waiter c owner own) s.waiters))
              (perm_middle kept queued))
            (rw (contains-append op kept queued, gone) apart, rest),
        All-sort_by queued_before _ (s.waiters ++ pressure_waiter c owner own ∷ [])
            (All-append _ s.waiters (pressure_waiter c owner own ∷ []) w (omega arith, tt)),
      )
]
