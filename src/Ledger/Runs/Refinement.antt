-- ===== src/Ledger/Runs/Refinement.antt =====
-- The mutations of sessionpressure/worklease.go refine the moves of single operations.
use session_pressure.Ledger.{WorkState, waiter_operations, lease_operations}
use session_pressure.Common.{Distinct, map, ap, refl}
use session_pressure.Ledger.Runs.{
  Step, acquires, registers, attempts, cancels, releases, parks, binds, reserves, drops, holds,
  lets_go, overrides, clears_override, observes_latch, AcquiresNew, Sound,
}
use session_pressure.Ledger.Runs.Kept.{
  hold-apart, release_admission-apart, override-apart, clear_waiter_override-apart,
}
use session_pressure.Ledger.Runs.Moves.{same-Move}
use session_pressure.Ledger.Runs.Phases.{phase, Move}
use session_pressure.Ledger.Runs.Admissions.{
  acquire-Move, register-Move, try_acquire-Move, cancel-Move,
}
use session_pressure.Ledger.Runs.Departures.{
  release-Move, reserve-Move, drop-Move, park-Move, bind-Move,
}

-- A mutation of a sound state with distinct lease identities is one move, if an operation that it
-- acquires for is new.
pub Step-Move :
    (s t : WorkState) (step : Step s t)
    → AcquiresNew s t step
    → Sound s
    → Distinct (map (λ l. l.id) s.leases)
    → Move (phase s) (phase t)
Step-Move s t (acquires c ceiling green l s') new h ids = acquire-Move c ceiling green l s' new
Step-Move s t (registers c class op w s' made) new h ids = register-Move w s'
Step-Move s t (attempts c ceiling green l s') new h ids = try_acquire-Move c ceiling green l s' h.0
Step-Move s t (cancels op now s') new h ids = cancel-Move op now s' h.0
Step-Move s t (releases id s') new h ids = release-Move id s' h.0 ids
Step-Move s t (parks id parked at s') new h ids = park-Move id parked at s'
Step-Move s t (binds id pid owner s') new h ids = bind-Move id pid owner s'
Step-Move s t (reserves c owner own s') new h ids = reserve-Move c owner own s' h.0 ids
Step-Move s t (drops audited op s') new h ids = drop-Move audited op s' h.0
Step-Move s t (holds c op class n s') new h ids =
    let p = hold-apart c op class n s' in
    same-Move s t (ap lease_operations p.0) (ap waiter_operations p.1)
Step-Move s t (lets_go op s') new h ids =
    let p = release_admission-apart op s' in
    same-Move s t (ap lease_operations p.0) (ap waiter_operations p.1)
Step-Move s t (overrides c audited all append_pinned ops s') new h ids =
    let p = override-apart c audited all append_pinned ops s' in
    same-Move s t (ap lease_operations p.0) (ap waiter_operations p.1)
Step-Move s t (clears_override audited s') new h ids =
    let p = clear_waiter_override-apart audited s' in
    same-Move s t (ap lease_operations p.0) (ap waiter_operations p.1)
Step-Move s t (observes_latch block release o now s') new h ids = same-Move s t refl refl
