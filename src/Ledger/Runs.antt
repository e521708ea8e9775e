-- ===== src/Ledger/Runs.antt =====
-- The steps of the coordinator's ledger and what every run of them keeps: no operation stands twice
-- in the document, and no waiter is bypassed past the maximum. These are conditions that `reconcile`
-- of sessionpressure/worklease.go demands before the next step. The requests of operators are those of
-- workoverride.go, and the latch that of workadmissionhold.go.
use session_pressure.Ledger.Latching.{Observation, observe_latch}
use session_pressure.Ledger.Requests.{override_waiters, clear_waiter_override}
pub mod Departures
pub mod Admissions
pub mod Refinement
pub mod Moves
pub mod Phases
pub mod Handover
pub mod Kept
use session_pressure.Ledger.Ownership.{
  park_lease, bind_pid, reserve_for_pressure, drop_lease, Notice, hold_admission, release_admission,
}
use session_pressure.Ledger.Select.{GreenWindow}
use session_pressure.Limits.{WorkClass}
use session_pressure.Common.{ℕ, Distinct, contains, ◌≡◌, false, Bool, List, some}
use session_pressure.Ledger.Operations.{
  acquire, Caller, new_waiter_record, ok, register, try_acquire, cancel, release,
}
use session_pressure.Ledger.{WorkState, Waiter, Lease}
use session_pressure.Ledger.Reconcile.{Host, Reconciled, reconcile}
use session_pressure.Ledger.Bypasses.{WithinBypasses, try_acquire-WithinBypasses}
use session_pressure.Ledger.Conservation.{operations, try_acquire-perm, register-perm}
use mathlib.Core.List.Sublist

-- One mutation under the ledger's lock, by whichever process.
pub data Step : WorkState → WorkState → Type 0 where
  acquires :
      (c : Caller) (ceiling : ℕ) (green : GreenWindow) (l : Lease) (s : WorkState)
      → Step s (acquire c ceiling green l s).0
  registers :
      (c : Caller) (class : WorkClass) (op : ℕ) (w : Waiter) (s : WorkState)
      → new_waiter_record c class op ≡ ok w
      → Step s (register w s).0
  attempts :
      (c : Caller) (ceiling : ℕ) (green : GreenWindow) (l : Lease) (s : WorkState)
      → Step s (try_acquire c ceiling green l s).0
  cancels : (op now : ℕ) (s : WorkState) → Step s (cancel op now s)
  releases : (id : ℕ) (s : WorkState) → Step s (release id s)
  parks : (id : ℕ) (parked : Bool) (at : ℕ) (s : WorkState) → Step s (park_lease id parked at s).0
  binds : (id pid owner : ℕ) (s : WorkState) → Step s (bind_pid id pid owner s).0
  reserves :
      (c : Caller) (owner : ℕ) (own : Lease) (s : WorkState)
      → Step s (reserve_for_pressure c owner own s).0
  drops : (audited : ℕ → Bool) (op : ℕ) (s : WorkState) → Step s (drop_lease audited op s).0
  holds :
      (c : Caller) (op : ℕ) (class : WorkClass) (n : Notice) (s : WorkState)
      → Step s (hold_admission c op class n s).0
  lets_go : (op : ℕ) (s : WorkState) → Step s (release_admission op s).0
  overrides :
      (c : Caller) (audited : ℕ → Bool) (all append_pinned : Bool) (ops : List ℕ) (s : WorkState)
      → Step s (override_waiters c audited all append_pinned ops s).0
  clears_override :
      (audited : ℕ → Bool) (s : WorkState) → Step s (clear_waiter_override audited s).0
  observes_latch :
      (block release : ℕ) (o : Observation) (now : ℕ) (s : WorkState)
      → Step s (record s {
        admission_latch = some (observe_latch block release o now s.admission_latch);
      })

-- Whether a step that acquires without a queue place does so for an operation that the ledger does
-- not know. Nothing in the code checks it: identities are random unless the caller names one.
abbrev pub AcquiresNew : (s t : WorkState) → Step s t → Type 0
AcquiresNew s t (acquires c ceiling green l s') = contains l.operation_id (operations s') ≡ false
AcquiresNew s t _ = Unit

-- Mutations and reconciliations that the ledger accepts, in any order.
pub data Run : WorkState → WorkState → Type 0 where
  done : (s : WorkState) → Run s s
  then_step : (s t u : WorkState) → Run s t → Step t u → Run s u
  then_reconcile :
      (s t : WorkState) (c : Caller) (h : Host) (r : Reconciled)
      → Run s t
      → reconcile c h t ≡ ok r
      → Run s r.state

-- Every step of a run acquires for new operations only.
abbrev pub AllAcquireNew : (s t : WorkState) → Run s t → Type 0
AllAcquireNew s t (done _) = Unit
AllAcquireNew s t (then_reconcile s' u c h r run e) = AllAcquireNew s' u run
AllAcquireNew s t (then_step s' u t' r step) = AllAcquireNew s' u r × AcquiresNew u t' step

-- What the next reconciliation demands of the queue and the leases.
abbrev pub Sound : WorkState → Type 0
Sound s = Distinct (operations s) × WithinBypasses s.waiters
