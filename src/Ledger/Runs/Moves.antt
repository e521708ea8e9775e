-- ===== src/Ledger/Runs/Moves.antt =====
-- Moves of single operations, by what they do to the leases and to the queue.
use session_pressure.Ledger.Conservation.{operations}
use session_pressure.Ledger.{WorkState, Lease, lease_operations, waiter_operations}
use session_pressure.Common.{
  ℕ, List, contains, Distinct, map, ◌≡◌, some, false, none, true, keep_if, ◌∷◌, ◌==◌, refl, not,
  arith, ◌||◌, ◌&&◌, ap, [], Bool-cases, inl, ==→eq, inr, clash, subst, sym, Distinct-append_apart,
  ==_refl,
}
use session_pressure.Ledger.Ownership.{find_lease}
use session_pressure.Ledger.Runs.Phases.{
  phase, Move, stays, enqueues, starts, gives_up, ends, yields, left_absent,
}

-- An identity that is not there is not dropped.
pub release_absent :
    (id : ℕ) (ls : List Lease)
    → contains id (map (λ k. k.id) ls) ≡ false
    → keep_if (λ k. not (k.id == id)) ls ≡ ls
release_absent id [] h = refl
release_absent id (k ∷ ls) h =
    let other : (k.id == id) ≡ false = ground arith in
    rw other (ap (λ r. k ∷ r) (release_absent id ls (ground arith)))

pub find_lease-none :
    (id : ℕ) (ls : List Lease) → find_lease id ls ≡ none → contains id (map (λ k. k.id) ls) ≡ false
unfolding find_lease
find_lease-none id [] h = refl
find_lease-none id (k ∷ ls) h = ground (arith, find_lease-none id ls)

-- The first element leaves a list in which it stands once, and a later one.
pub first_left :
    (op o : ℕ) (ops : List ℕ)
    → contains op ops ≡ false
    → contains o ops ≡ (not (o == op) && (o == op || contains o ops))
first_left op o ops h = elim (Bool-cases (o == op)) [
  | inl e ↦ rw (e, ==→eq o op e, h) refl
  | inr e ↦ rw e refl
]

pub later_left :
    (op first o : ℕ) (ops : List ℕ)
    → contains first ops ≡ false
    → contains op ops ≡ true
    → (o == first || (not (o == op) && contains o ops))
      ≡ (not (o == op) && (o == first || contains o ops))
later_left op first o ops away there = elim (Bool-cases (o == op)) [
  | inl e ↦ elim (Bool-cases (o == first)) [
    | inl e' ↦ absurd (
        clash (contains o ops) (subst (λ a. contains a ops ≡ true) (sym (==→eq o op e)) there)
          (subst (λ a. contains a ops ≡ false) (sym (==→eq o first e')) away))
    | inr e' ↦ rw (e, e') refl
  ]
  | inr e ↦ rw e refl
]

-- The lease of an identity goes, and with distinct identities and operations only that.
pub release_left :
    (id : ℕ) (l : Lease) (ls : List Lease) (o : ℕ)
    → Distinct (map (λ k. k.id) ls)
    → Distinct (lease_operations ls)
    → find_lease id ls ≡ some l
    → (contains l.operation_id (lease_operations ls) ≡ true)
      × (contains o (lease_operations (keep_if (λ k. not (k.id == id)) ls))
          ≡ (not (o == l.operation_id) && contains o (lease_operations ls)))
unfolding find_lease
release_left id l [] o di d f = cc
release_left id l (k ∷ ls) o di d f = elim (Bool-cases (k.id == id)) [
  | inl e ↦
      let same : some k ≡ some l = rw e at f in
      let op_same : k.operation_id ≡ l.operation_id =
        ap (λ m. elim m as (λ _. ℕ) [ none ↦ 0 | some x ↦ x.operation_id ]) same in
      let others : contains id (map (λ x. x.id) ls) ≡ false =
        subst (λ a. contains a (map (λ x. x.id) ls) ≡ false) (==→eq k.id id e) di.0 in
      rw (e, release_absent id ls others, sym op_same)
        (
          ground (arith, ==_refl k.operation_id),
          first_left k.operation_id o (lease_operations ls) d.0,
        )
  | inr e ↦
      let p = release_left id l ls o di.1 d.1 (rw e at f) in
      rw (e, p.1)
        (
          ground (arith, p.0),
          later_left l.operation_id k.operation_id o (lease_operations ls) d.0 p.0,
        )
]

-- The same operations under lease and in the queue.
pub same-Move :
    (s t : WorkState)
    → lease_operations t.leases ≡ lease_operations s.leases
    → waiter_operations t.waiters ≡ waiter_operations s.waiters
    → Move (phase s) (phase t)
same-Move s t l w = stays (λ o. rw (l, w) refl)

-- An operation that was nowhere joins the queue.
pub enqueues-Move :
    (s t : WorkState) (op : ℕ)
    → contains op (lease_operations s.leases) ≡ false
    → contains op (waiter_operations s.waiters) ≡ false
    → lease_operations t.leases ≡ lease_operations s.leases
    → ((o : ℕ)
        → contains o (waiter_operations t.waiters)
          ≡ (o == op || contains o (waiter_operations s.waiters)))
    → Move (phase s) (phase t)
enqueues-Move s t op nl nw l w = enqueues op (rw (nl, nw) refl) (λ o. elim (Bool-cases (o == op)) [
  | inl e ↦ rw (l, w o, e, ==→eq o op e, nl) refl
  | inr e ↦ rw (l, w o, e) refl
])

-- An operation of the queue goes on to a lease.
pub starts-Move :
    (s t : WorkState) (op : ℕ)
    → contains op (lease_operations s.leases) ≡ false
    → contains op (waiter_operations s.waiters) ≡ true
    → ((o : ℕ)
        → contains o (lease_operations t.leases)
          ≡ (o == op || contains o (lease_operations s.leases)))
    → ((o : ℕ)
        → contains o (waiter_operations t.waiters)
          ≡ (not (o == op) && contains o (waiter_operations s.waiters)))
    → Move (phase s) (phase t)
starts-Move s t op nl q l w = starts op (rw (nl, q) refl) (λ o. elim (Bool-cases (o == op)) [
  | inl e ↦ rw (l o, w o, e) refl
  | inr e ↦ rw (l o, w o, e) refl
])

-- An operation leaves the queue, or was not in it.
pub gives_up-Move :
    (s t : WorkState) (op : ℕ)
    → Distinct (operations s)
    → lease_operations t.leases ≡ lease_operations s.leases
    → ((o : ℕ)
        → contains o (waiter_operations t.waiters)
          ≡ (not (o == op) && contains o (waiter_operations s.waiters)))
    → Move (phase s) (phase t)
gives_up-Move s t op d l w =
    let ls = lease_operations s.leases in
    let ws = waiter_operations s.waiters in
    elim (Bool-cases (contains op ws)) [
      | inl there ↦ elim (Bool-cases (contains op ls)) [
        | inl both ↦ absurd (clash (contains op ws) there (Distinct-append_apart op ls ws d both))
        | inr nl ↦ gives_up op (rw (nl, there) refl) (λ o. elim (Bool-cases (o == op)) [
          | inl e ↦ rw (l, w o, e, ==→eq o op e, nl) refl
          | inr e ↦ rw (l, w o, e) refl
        ])
      ]
      | inr away ↦ stays (λ o. rw (l, w o, left_absent ws op o away) refl)
    ]

-- An operation leaves its lease, and may queue again.
pub ends-Move :
    (s t : WorkState) (op : ℕ)
    → Distinct (operations s)
    → contains op (lease_operations s.leases) ≡ true
    → ((o : ℕ)
        → contains o (lease_operations t.leases)
          ≡ (not (o == op) && contains o (lease_operations s.leases)))
    → waiter_operations t.waiters ≡ waiter_operations s.waiters
    → Move (phase s) (phase t)
ends-Move s t op d there l w =
    let away =
      Distinct-append_apart op (lease_operations s.leases) (waiter_operations s.waiters) d there in
    ends op (rw there refl) (λ o. elim (Bool-cases (o == op)) [
      | inl e ↦ rw (l o, w, e, ==→eq o op e, away) refl
      | inr e ↦ rw (l o, w, e) refl
    ])

pub yields-Move :
    (s t : WorkState) (op : ℕ)
    → contains op (lease_operations s.leases) ≡ true
    → ((o : ℕ)
        → contains o (lease_operations t.leases)
          ≡ (not (o == op) && contains o (lease_operations s.leases)))
    → ((o : ℕ)
        → contains o (waiter_operations t.waiters)
          ≡ (o == op || contains o (waiter_operations s.waiters)))
    → Move (phase s) (phase t)
yields-Move s t op there l w = yields op (rw there refl) (λ o. elim (Bool-cases (o == op)) [
  | inl e ↦ rw (l o, w o, e) refl
  | inr e ↦ rw (l o, w o, e) refl
])
