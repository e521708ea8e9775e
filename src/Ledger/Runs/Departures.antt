-- ===== src/Ledger/Runs/Departures.antt =====
-- The moves of the mutations of a lease that is held, sessionpressure/worklease.go.
use session_pressure.Ledger.Ownership.{
  all_belong, pressure_waiter, drop_lease, park_lease, bind_pid, find_lease, reserve_for_pressure,
  park_stamp, update_lease, is_park_pinned,
}
use session_pressure.Ledger.Conservation.{operations, queued-perm}
use session_pressure.Ledger.{Lease, WorkState, waiter_operations, lease_operations}
use session_pressure.Ledger.Operations.{Caller, release}
use session_pressure.Common.{
  ℕ, Bool, List, Distinct, ◌≡◌, true, contains, Bool-cases, ◌∷◌, not, [], inl, ◌==◌, arith, inr,
  ◌&&◌, refl, sym, contains-perm, ==→eq, map, keep_if, Option-cases, ap, Distinct-append_left, some,
  clash, ◌∙◌, none, is_some,
}
use session_pressure.Ledger.Runs.Kept.{lease_operations-update, drop-cases}
use session_pressure.Ledger.Runs.Handover.{reserve-cases, handed_over}
use session_pressure.Ledger.Runs.Moves.{
  release_left, release_absent, find_lease-none, same-Move, ends-Move, yields-Move,
}
use session_pressure.Ledger.Runs.Phases.{phase, Move, stays, contains-keep_if-not, left_absent}

pub release-Move :
    (id : ℕ) (s : WorkState)
    → Distinct (operations s)
    → Distinct (map (λ l. l.id) s.leases)
    → Move (phase s) (phase (release id s))
unfolding release
release-Move id s d distinct = elim (Option-cases (find_lease id s.leases)) [
  | inl e ↦
      same-Move s (release id s)
        (ap lease_operations (release_absent id s.leases (find_lease-none id s.leases e))) refl
  | inr (l, e) ↦
      let p = λ (o : ℕ).
        release_left id l s.leases o distinct
          (Distinct-append_left (lease_operations s.leases) (waiter_operations s.waiters) d) e in
      ends-Move s (release id s) l.operation_id d (p 0).0 (λ o. (p o).1) refl
]

-- The lease of an identity, all leases of which are of one operation.
belongs :
    (id op : ℕ) (ls : List Lease) (l : Lease)
    → all_belong id op ls ≡ true
    → find_lease id ls ≡ some l
    → l.operation_id ≡ op
unfolding all_belong find_lease
belongs id op [] l b f = cc
belongs id op (k ∷ ls) l b f = elim (Bool-cases (k.id == id)) [
  | inl e ↦
      let same : some k ≡ some l = rw e at f in
      ap (λ m. elim m as (λ _. ℕ) [ none ↦ op | some x ↦ x.operation_id ]) (sym same)
      ∙ ==→eq k.operation_id op (ground arith)
  | inr e ↦ belongs id op ls l (ground arith) (rw e at f)
]

pub reserve-Move :
    (c : Caller) (owner : ℕ) (own : Lease) (s : WorkState)
    → Distinct (operations s)
    → Distinct (map (λ l. l.id) s.leases)
    → Move (phase s) (phase (reserve_for_pressure c owner own s).0)
unfolding pressure_waiter
reserve-Move c owner own s d distinct = elim (reserve-cases c owner own s) [
  | inl same ↦ rw same (stays (λ o. refl))
  | inr (there, whole, handed) ↦ elim (Option-cases (find_lease own.id s.leases)) [
    | inl e ↦ absurd (clash (is_some (find_lease own.id s.leases)) there (rw e refl))
    | inr (l, e) ↦
        let named = belongs own.id own.operation_id s.leases l whole e in
        let p = λ (o : ℕ).
          release_left own.id l s.leases o distinct
            (Distinct-append_left (lease_operations s.leases) (waiter_operations s.waiters) d) e in
        rw handed (
          yields-Move s (handed_over c owner own s) own.operation_id
            (ap (λ a. contains a (lease_operations s.leases)) (sym named) ∙ (p 0).0)
            (λ o. (p o).1 ∙ ap (λ a. not (o == a) && contains o (lease_operations s.leases)) named)
            (λ o. contains-perm o _ _ (queued-perm (pressure_waiter c owner own) s.waiters)))
  ]
]

pub drop-Move :
    (audited : ℕ → Bool) (op : ℕ) (s : WorkState)
    → Distinct (operations s)
    → Move (phase s) (phase (drop_lease audited op s).0)
drop-Move audited op s d = elim (drop-cases audited op s) [
  | inl same ↦ rw same (stays (λ o. refl))
  | inr dropped ↦
      let t = record s { leases = keep_if (λ l. not (l.operation_id == op)) s.leases } in
      let l = λ (o : ℕ). contains-keep_if-not (λ (k : Lease). k.operation_id) op o s.leases in
      let there : Move (phase s) (phase t) =
        elim (Bool-cases (contains op (lease_operations s.leases))) [
          | inl e ↦ ends-Move s t op d e l refl
          | inr e ↦ stays (λ o. rw (l o, left_absent (lease_operations s.leases) op o e) refl)
        ] in
      rw dropped there
]

pub park-Move :
    (id : ℕ) (parked : Bool) (at : ℕ) (s : WorkState)
    → Move (phase s) (phase (park_lease id parked at s).0)
unfolding park_lease
park-Move id parked at s =
    let kept = lease_operations-update id (park_stamp parked at) s.leases (λ l. refl) in
    let t = record s { leases = update_lease id (park_stamp parked at) s.leases } in
    elim (Option-cases (find_lease id s.leases)) [
      | inl e ↦ rw (e, park_lease) (stays (λ o. refl))
      | inr (l, e) ↦ elim (Bool-cases (parked && is_park_pinned s)) [
        | inl e' ↦ rw (e, park_lease, e') (stays (λ o. refl))
        | inr e' ↦ rw (e, park_lease, e') (same-Move s t kept refl)
      ]
    ]

pub bind-Move :
    (id pid owner : ℕ) (s : WorkState) → Move (phase s) (phase (bind_pid id pid owner s).0)
unfolding bind_pid
bind-Move id pid owner s =
    let f = λ (k : Lease). record k { pid = pid; owner_identity = owner } in
    let t = record s { leases = update_lease id f s.leases } in
    elim (Option-cases (find_lease id s.leases)) [
      | inl e ↦ rw (e, bind_pid) (stays (λ o. refl))
      | inr (l, e) ↦
          rw (e, bind_pid) (same-Move s t (lease_operations-update id f s.leases (λ k. refl)) refl)
    ]
