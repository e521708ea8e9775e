-- ===== src/Ledger/Transaction.antt =====
-- One locked access to the state file: `withState` of sessionpressure/worklease.go. The lock is
-- taken for the whole of it, so that two accesses never interleave.
pub mod Soundness
use session_pressure.Limits.{WorkClass}
use session_pressure.Ledger.Select.{GreenWindow}
use session_pressure.Ledger.{WorkState}
use session_pressure.Common.{Bool, Option, ℕ, if◌then◌else◌, some, not, ◌&&◌, ltb}
use session_pressure.Ledger.Document.{Document, read, write}
use session_pressure.Ledger.Reconcile.{Host, Reconciled, reconcile}
use session_pressure.Ledger.Override.{schema_current, is_legacy_pinned}
use session_pressure.Ledger.Operations.{
  Caller, Result, err, ok, check_caller, upgrade_pending, reservation_minimum_schema, acquire,
  new_lease_record, ◌>>◌, ◌>>=◌, not_written,
}

-- The state file after an access; `writes` says whether writeState succeeds.
unfoldable pub persist : Bool → Option Document → WorkState → Option Document
persist writes d s = if writes then some (write s) else d

-- A document that no legacy cohort holds down moves to the current schema.
unfoldable pub raise_schema : Bool → WorkState → WorkState
raise_schema pinned s =
    if not pinned && ltb s.schema_version schema_current
    then record s { schema_version = schema_current }
    else s

-- The last write.
unfoldable pub commit {ℓ} :
    {A : Type ℓ} → Bool → Option Document → WorkState → A → Option Document × Result A
unfolding persist
commit writes d s value = (persist writes d s, if writes then ok value else err not_written)

-- What follows the mutation: a failed one is persisted too.
unfoldable pub conclude {ℓ} :
    {A : Type ℓ} → Bool → Option Document → Bool → WorkState × Result A → Option Document × Result A
unfolding persist raise_schema commit
conclude writes d pinned (s, err e) = (persist writes d s, err e)
conclude writes d pinned (s, ok value) = commit writes d (raise_schema pinned s) value

-- A living cohort of leases or waiters from below schema 6 blocks every mutation.
abbrev pub blocks : WorkState → Bool
blocks s = is_legacy_pinned s && ltb s.schema_version reservation_minimum_schema

-- A mutation of a reconciled state.
unfoldable pub mutate_state {ℓ} :
    {A : Type ℓ}
    → Bool
    → Option Document
    → Reconciled
    → (WorkState → WorkState × Result A)
    → Option Document × Result A
unfolding persist conclude
mutate_state writes d r mutate =
    if not (blocks r.state)
    then conclude writes d (is_legacy_pinned r.state) (mutate r.state)
    else if r.changed
    then (persist writes d r.state, err (if writes then upgrade_pending else not_written))
    else (d, err upgrade_pending)

-- The state that an access starts from: `validate`, `readState` and `reconcile`.
unfoldable pub open_state : Caller → Host → Option Document → Result Reconciled
open_state c h d = check_caller c >> (read d >>= λ s. reconcile c h s)

-- withState with a mutation.
unfoldable pub with_state {ℓ} :
    {A : Type ℓ}
    → Caller
    → Host
    → Bool
    → Option Document
    → (WorkState → WorkState × Result A)
    → Option Document × Result A
unfolding open_state mutate_state
with_state c h writes d mutate = elim (open_state c h d) [
  | err e ↦ (d, err e)
  | ok r ↦ mutate_state writes d r mutate
]

-- withState without a mutation, as Status calls it.
unfoldable pub look : Caller → Host → Bool → Option Document → Option Document × Result WorkState
unfolding open_state commit
look c h writes d = elim (open_state c h d) [
  | err e ↦ (d, err e)
  | ok r ↦ if r.changed then commit writes d r.state r.state else (d, ok r.state)
]

-- AcquireOperationWithCapacity.
unfoldable pub acquire_operation :
    Caller
    → Host
    → Bool
    → ℕ
    → GreenWindow
    → WorkClass
    → ℕ
    → Option Document
    → Option Document × Result (Unit {0})
unfolding with_state
acquire_operation c h writes ceiling green class op d = elim (new_lease_record c class op) [
  | err e ↦ (d, err e)
  | ok lease ↦ with_state c h writes d (acquire c ceiling green lease)
]
