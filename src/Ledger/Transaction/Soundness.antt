-- ===== src/Ledger/Transaction/Soundness.antt =====
-- What is in the state file after a locked access, sessionpressure/worklease.go.
use session_pressure.Ledger.Ceiling.{acquire_admits}
use session_pressure.Ledger.Select.{GreenWindow}
use session_pressure.Limits.{WorkClass}
use session_pressure.Ledger.Document.Roundtrip.{map_same}
use session_pressure.Ledger.Bypasses.{WithinBypasses}
use session_pressure.Ledger.Results.{Result-cases, bind_ok, require_ok, ok_inj}
use session_pressure.Ledger.Override.{is_legacy_pinned}
use session_pressure.Ledger.{WorkState, lease_operations, waiter_operations, Lease, used_weight}
use session_pressure.Ledger.Document.{Document, write, lease_at, waiter_at, read}
use session_pressure.Ledger.Reconcile.{Host, Reconciled, reconcile}
use session_pressure.Ledger.Operations.{
  Caller, Result, ok, err, reservation_minimum_schema, new_lease_record, acquire, check_caller,
  identity_for_pid, effective_capacity, valid_private_id, invalid_id, full_capacity,
}
use session_pressure.Common.{
  Bool, Option, ◌≡◌, some, false, true, Bool-cases, inl, refl, inr, Distinct, arith, ◌&&◌, ltb, ◌≤◌,
  ◌++◌, leb, ◌∙◌, ℕ, none, contains, ◌⊎◌, ◌+◌, ap, sym, ◌∷◌, [], contains-append, ==_refl,
}
use session_pressure.Ledger.Transaction.{
  conclude, mutate_state, with_state, commit, persist, blocks, open_state, raise_schema,
  acquire_operation,
}
use session_pressure.Ledger.Reconcile.Soundness.{reconcile-Sound}
use session_pressure.Ledger.Runs.{Sound}
use mathlib.Core.List.{map-append}

-- A mutation that the access ran, and what it wrote.
conclude_ok :
    {A : Type 0} (writes : Bool) (d : Option Document) (pinned : Bool) (m : WorkState × Result A)
    (a : A)
    → (conclude writes d pinned m).1 ≡ ok a
    → (m.1 ≡ ok a) × ((conclude writes d pinned m).0 ≡ some (write (raise_schema pinned m.0)))
unfolding conclude commit persist
conclude_ok true d pinned (s, ok v) a e = (e, refl)
conclude_ok false d pinned (s, ok v) a e = cc
conclude_ok writes d pinned (s, err f) a e = cc

mutate_state_ok :
    {A : Type 0} (writes : Bool) (d : Option Document) (r : Reconciled)
    (mutate : WorkState → WorkState × Result A) (a : A)
    → (mutate_state writes d r mutate).1 ≡ ok a
    → (blocks r.state ≡ false)
      × ((mutate r.state).1 ≡ ok a)
      × ((mutate_state writes d r mutate).0
          ≡ some (write (raise_schema (is_legacy_pinned r.state) (mutate r.state).0)))
unfolding mutate_state
mutate_state_ok writes d r mutate a e = elim (Bool-cases (blocks r.state)) [
  | inl b ↦ elim (Bool-cases r.changed) [
    | inl b' ↦ let e' : _ ≡ ok a = rw (b, b') at e in cc
    | inr b' ↦ let e' : _ ≡ ok a = rw (b, b') at e in cc
  ]
  | inr b ↦
      let e' : (conclude writes d (is_legacy_pinned r.state) (mutate r.state)).1 ≡ ok a =
        rw b at e in
      let p = conclude_ok writes d (is_legacy_pinned r.state) (mutate r.state) a e' in
      rw b (refl, p.0, p.1)
]

-- An access whose mutation succeeded: the state that it started from, and what it wrote.
pub with_state_ok :
    {A : Type 0} (c : Caller) (h : Host) (writes : Bool) (d : Option Document)
    (mutate : WorkState → WorkState × Result A) (a : A)
    → (with_state c h writes d mutate).1 ≡ ok a
    → (r : Reconciled) × (open_state c h d ≡ ok r)
      × (blocks r.state ≡ false)
      × ((mutate r.state).1 ≡ ok a)
      × ((with_state c h writes d mutate).0
          ≡ some (write (raise_schema (is_legacy_pinned r.state) (mutate r.state).0)))
unfolding with_state
with_state_ok c h writes d mutate a e = elim (Result-cases (open_state c h d)) [
  | inl (f, q) ↦ let e' : err f ≡ ok a = rw (q, with_state) at e in cc
  | inr (r, q) ↦
      let e' : (mutate_state writes d r mutate).1 ≡ ok a = rw (q, with_state) at e in
      let p = mutate_state_ok writes d r mutate a e' in rw (q, with_state) (r, refl, p.0, p.1, p.2)
]

-- A document of schema 6 or later keeps every field of its leases and waiters.
write_kept :
    (s : WorkState)
    → 6 ≤ s.schema_version
    → ((write s).leases ≡ s.leases) × ((write s).waiters ≡ s.waiters)
unfolding write lease_at waiter_at
write_kept s h =
    let six : leb 6 s.schema_version ≡ true = ground arith in
    let three : leb 3 s.schema_version ≡ true = ground arith in
    (
      map_same (lease_at s.schema_version) s.leases (λ l. rw six refl),
      rw three (map_same (waiter_at s.schema_version) s.waiters (λ w. rw six refl)),
    )

-- What the next access demands of a document, beside the metadata.
abbrev pub SoundDocument : Document → Type 0
SoundDocument d =
    Distinct (lease_operations d.leases ++ waiter_operations d.waiters) × WithinBypasses d.waiters

raise_schema-apart :
    (pinned : Bool) (s : WorkState)
    → ((raise_schema pinned s).leases ≡ s.leases) × ((raise_schema pinned s).waiters ≡ s.waiters)
unfolding raise_schema
raise_schema-apart pinned s = (ground arith, ground arith)

pub raise_schema_at_least :
    (pinned : Bool) (s : WorkState)
    → (pinned && ltb s.schema_version reservation_minimum_schema) ≡ false
    → 6 ≤ (raise_schema pinned s).schema_version
unfolding raise_schema
raise_schema_at_least pinned s b = ground arith

-- The document that follows a mutation which was not blocked, and kept the schema.
commit_kept :
    (before after : WorkState)
    → after.schema_version ≡ before.schema_version
    → blocks before ≡ false
    → let doc = write (raise_schema (is_legacy_pinned before) after) in
      (doc.leases ≡ after.leases) × (doc.waiters ≡ after.waiters)
commit_kept before after same b =
    let pinned = is_legacy_pinned before in
    let p = raise_schema-apart pinned after in
    let k =
      write_kept (raise_schema pinned after) (raise_schema_at_least pinned after (rw same b)) in
    (k.0 ∙ p.0, k.1 ∙ p.1)

open_state_ok :
    (c : Caller) (h : Host) (d : Option Document) (r : Reconciled)
    → open_state c h d ≡ ok r
    → (s : WorkState) × (read d ≡ ok s) × (reconcile c h s ≡ ok r)
unfolding open_state
open_state_ok c h d r e = elim (Result-cases (check_caller c)) [
  | inl (f, q) ↦ let e' : err f ≡ ok r = rw (q, open_state) at e in cc
  | inr (_, q) ↦ bind_ok (read d) _ r (rw (q, open_state) at e)
]

-- Whatever the file held, an access that succeeds leaves a document in which no operation stands
-- twice under lease or in the queue and no waiter was bypassed more than four times, when its
-- mutation keeps these and the schema.
pub with_state-SoundDocument :
    {A : Type 0} (c : Caller) (h : Host) (writes : Bool) (d : Option Document)
    (mutate : WorkState → WorkState × Result A) (a : A)
    → ((s : WorkState) → Sound s → Sound (mutate s).0)
    → ((s : WorkState) → (mutate s).0.schema_version ≡ s.schema_version)
    → (with_state c h writes d mutate).1 ≡ ok a
    → (doc : Document) × ((with_state c h writes d mutate).0 ≡ some doc) × SoundDocument doc
with_state-SoundDocument c h writes d mutate a keeps same e =
    let (r, opened, free, _, written) = with_state_ok c h writes d mutate a e in
    let (s, _, accepted) = open_state_ok c h d r opened in
    let p = commit_kept r.state (mutate r.state).0 (same r.state) free in
    (_, written, rw (p.0, p.1) (keeps r.state (reconcile-Sound c h s r accepted)))

new_lease_record_ok :
    (c : Caller) (class : WorkClass) (op : ℕ) (l : Lease)
    → new_lease_record c class op ≡ ok l
    → (l.operation_id ≡ op) × (l.parked_at ≡ none)
unfolding new_lease_record
new_lease_record_ok c class op l e =
    let (_, _, e₁) = bind_ok (check_caller c) _ l e in
    let (owner, _, e₂) = bind_ok (identity_for_pid c c.pid) _ l e₁ in
    let (_, e₃) = require_ok (valid_private_id op) invalid_id _ l e₂ in
    let same = ok_inj _ l e₃ in
    (ap (λ k. k.operation_id) (sym same), ap (λ k. k.parked_at) (sym same))

acquire_schema :
    (c : Caller) (ceiling : ℕ) (green : GreenWindow) (l : Lease) (s : WorkState)
    → (acquire c ceiling green l s).0.schema_version ≡ s.schema_version
unfolding acquire
acquire_schema c ceiling green l s = ground arith

-- An operation that was admitted without queueing stands under lease in the file, and the leases of
-- the file are charged no more than the caller's effective capacity; or the capacity is the full
-- one, the green window was open, and they are charged no more than its overcommit allows.
pub acquire_operation_charges :
    (c : Caller) (h : Host) (writes : Bool) (ceiling : ℕ) (green : GreenWindow) (class : WorkClass)
    (op : ℕ) (d : Option Document)
    → (acquire_operation c h writes ceiling green class op d).1 ≡ ok tt
    → (doc : Document) × ((acquire_operation c h writes ceiling green class op d).0 ≡ some doc)
      × (contains op (lease_operations doc.leases) ≡ true)
      × ((used_weight doc.leases ≤ effective_capacity c ceiling)
          ⊎ ((green.active ≡ true)
              × (effective_capacity c ceiling ≡ full_capacity c)
              × (used_weight doc.leases ≤ full_capacity c + green.overcommit)))
unfolding acquire_operation
acquire_operation_charges c h writes ceiling green class op d e =
    elim (Result-cases (new_lease_record c class op)) [
      | inl (f, q) ↦ let e' : err f ≡ ok tt = rw (q, acquire_operation) at e in cc
      | inr (l, q) ↦
          let mutate = acquire c ceiling green l in
          let e' : (with_state c h writes d mutate).1 ≡ ok tt = rw (q, acquire_operation) at e in
          let (r, _, free, done_ok, written) = with_state_ok c h writes d mutate tt e' in
          let p =
            commit_kept r.state (mutate r.state).0 (acquire_schema c ceiling green l r.state)
              free in
          let (named, unparked) = new_lease_record_ok c class op l q in
          let (added, _, room) = acquire_admits c ceiling green l r.state unparked done_ok in
          rw (q, acquire_operation)
            (
              _,
              written,
              rw (p.0, added, map-append (λ k. k.operation_id) r.state.leases (l ∷ []), named)
                  (contains-append op (lease_operations r.state.leases) (op ∷ [])
                    ∙ ground (arith, ==_refl op)),
              rw p.0 (elim room [
                | inl low ↦ inl low
                | inr (_, is_open, full, low) ↦ inr (is_open, full, low)
              ]),
            )
    ]
