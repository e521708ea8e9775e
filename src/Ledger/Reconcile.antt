-- ===== src/Ledger/Reconcile.antt =====
-- What every operation does first: `reconcile` of sessionpressure/worklease.go checks the document
-- and drops the leases and the waiters whose process is gone.
pub mod Rounds
pub mod Identities
pub mod Premature
pub mod Owners
pub mod Soundness
use session_pressure.Ledger.Override.{advance_work_override}
use session_pressure.Ledger.Select.{work_waiter_protection, maximum_bypasses}
use session_pressure.Ledger.Operations.{
  Caller, Result, ok, valid_private_id, sort_waiters, legacy_owner_token, err, require,
  supervisor_unresolved, not_recorded, owner_unresolved, ◌>>=◌, bad_hold, ◌>>◌, bad_lease_id,
  invalid_id, duplicate_lease, duplicate_operation, duplicate_hold, bad_lease_metadata,
  bad_waiter_metadata, bad_bypass_count, bad_waiter_time, bad_reservation, full_capacity,
  premature_protection,
}
use session_pressure.Ledger.{
  Lease, WorkState, milliseconds, Waiter, Hold, unreserved, pressure, unknown_kind,
  lease_operations,
}
use session_pressure.Common.{
  ℕ, List, Bool, if◌then◌else◌, ◌==◌, not, Option, true, ◌||◌, ◌&&◌, ◌∷◌, some, false, is_some,
  none, leb, ◌+◌, same?, is_empty, ltb, [], contains,
}
use session_pressure.Limits.{WorkClass, benchmark, weight}

-- One minute.
abbrev pub maximum_clock_skew : ℕ
maximum_clock_skew = milliseconds 60_000

-- What the host answers during one reconciliation. A process is asked for again after its identity
-- could not be read; an expired operation is recorded before it is dropped.
pub record Host : Type 0 where
  pub alive : ℕ → Bool
  pub still_alive : ℕ → Bool
  pub records : ℕ → Bool

-- A lease of an older schema gets its owner as its supervisor.
unfoldable pub fill_supervisor : Lease → Lease
fill_supervisor l = record l {
  supervisor_pid = if l.supervisor_pid == 0 then l.pid else l.supervisor_pid;
  supervisor_identity =
      if l.supervisor_identity == 0 then l.owner_identity else l.supervisor_identity;
}

abbrev pub lacks_supervisor : Lease → Bool
lacks_supervisor l = l.supervisor_pid == 0 || l.supervisor_identity == 0

-- The metadata of a lease whose supervisor is filled in.
unfoldable pub lease_metadata : ℕ → Lease → Bool
lease_metadata now l =
    not (l.pid == 0)
    && not (l.supervisor_pid == 0)
    && not (l.queued_at == 0)
    && not (l.started_at == 0)
    && leb l.queued_at l.started_at
    && leb l.started_at (now + maximum_clock_skew)
    && not (l.owner_identity == 0)
    && not (l.supervisor_identity == 0)

-- The wrapper of a lease lives and is the process that took it.
unfoldable pub supervisor_owns : Caller → Host → Lease → Result Bool
supervisor_owns c h l =
    if not (h.alive l.supervisor_pid)
    then ok false
    else if l.supervisor_identity == legacy_owner_token
    then ok true
    else elim (c.identity l.supervisor_pid) [
      | none ↦ err supervisor_unresolved
      | some token ↦
          if token == 0 then err supervisor_unresolved else ok (token == l.supervisor_identity)
    ]

-- A dead owner is dropped once that is recorded.
abbrev pub drop_recorded : Host → ℕ → Result Bool
drop_recorded h op = if h.records op then ok false else err not_recorded

-- Whether a lease stays: `ok false` drops it.
unfoldable pub lease_stays : Caller → Host → Bool → Lease → Result Bool
lease_stays c h owns l =
    if not (h.alive l.pid)
    then if owns then ok true else drop_recorded h l.operation_id
    else if l.owner_identity == legacy_owner_token
    then ok true
    else elim (c.identity l.pid) [
      | none ↦ if h.still_alive l.pid then err owner_unresolved else drop_recorded h l.operation_id
      | some token ↦
          if token == 0
          then err owner_unresolved
          else if token == l.owner_identity || owns
          then ok true
          else drop_recorded h l.operation_id
    ]

-- One lease, against the identities and the operations of the leases before it.
unfoldable pub check_lease : Caller → Host → List ℕ → List ℕ → Lease → Result Bool
unfolding lease_metadata supervisor_owns lease_stays
check_lease c h ids ops l = do
  require (valid_private_id l.id) bad_lease_id
  require (valid_private_id l.operation_id) invalid_id
  require (not (contains l.id ids)) duplicate_lease
  require (not (contains l.operation_id ops)) duplicate_operation
  require (lease_metadata c.now l) bad_lease_metadata
  owns ← supervisor_owns c h l
  lease_stays c h owns l

-- What a loop has kept, how many it dropped, and whether it changed anything.
pub record Kept {ℓ} (A : Type ℓ) : Type ℓ where
  pub items : List A
  pub pruned : ℕ
  pub changed : Bool

-- The result for one item in front of the result for the rest.
unfoldable pub keep_item {ℓ} : {A : Type ℓ} → Bool → Bool → A → Kept A → Kept A
keep_item stays changed x k =
    if stays
    then (record { items = x ∷ k.items; pruned = k.pruned; changed = changed || k.changed })
    else (record { items = k.items; pruned = k.pruned + 1; changed = true })

unfoldable pub reconcile_leases :
    Caller → Host → Bool → List ℕ → List ℕ → List Lease → Result (Kept Lease)
unfolding check_lease fill_supervisor keep_item
reconcile_leases c h legacy ids ops [] = ok (record { items = []; pruned = 0; changed = false })
reconcile_leases c h legacy ids ops (raw ∷ ls) =
    let l = fill_supervisor raw in
    let expected = weight c.cpus c.limits l.class in
    let filled = lacks_supervisor raw && not legacy in
    let rest = reconcile_leases c h legacy (l.id ∷ ids) (l.operation_id ∷ ops) ls in
    check_lease c h ids ops l >>= λ stays. rest >>= λ k. ok (
      keep_item stays (filled || not (l.weight == expected)) (record l { weight = expected })
        (record k { changed = filled || k.changed }))

-- A time of a waiter is absent, or lies between its queueing and the clock's skew.
abbrev pub waiter_time : ℕ → ℕ → Option ℕ → Bool
waiter_time queued now none = true
waiter_time queued now (some at) = leb queued at && leb at (now + maximum_clock_skew)

unfoldable pub waiter_metadata : ℕ → Waiter → Bool
waiter_metadata now w =
    not (w.pid == 0)
    && not (w.queued_at == 0)
    && leb w.queued_at (now + maximum_clock_skew)
    && not (w.heartbeat_at == 0)
    && leb w.queued_at w.heartbeat_at
    && leb w.heartbeat_at (now + maximum_clock_skew)
    && not (w.owner_identity == 0)

unfoldable pub reservation_fits : ℕ → Waiter → Bool
reservation_fits now w = elim w.reservation_kind [
  | unreserved ↦ not (is_some w.reserved_at)
  | pressure ↦ is_some w.reserved_at && waiter_time w.queued_at now w.reserved_at
  | unknown_kind ↦ false
]

abbrev pub is_benchmark : WorkClass → Bool
is_benchmark benchmark = true
is_benchmark _ = false

-- A mark of protection is one that the current limits derive, or an old promise to a benchmark.
unfoldable pub protection_fits : ℕ → ℕ → ℕ → Waiter → Bool
protection_fits expected capacity now w =
    not (is_some w.protected_at)
    || is_some
        (work_waiter_protection (record w { weight = expected; protected_at = none }) capacity now)
    || (is_benchmark w.class
        && ltb expected capacity
        && (w.weight == capacity || w.weight == expected))

unfoldable pub waiter_stays : Caller → Host → Waiter → Result Bool
waiter_stays c h w =
    if not (h.alive w.pid) then drop_recorded h w.operation_id else elim (c.identity w.pid) [
      | none ↦ if h.still_alive w.pid then err owner_unresolved else drop_recorded h w.operation_id
      | some token ↦
          if token == 0
          then err owner_unresolved
          else if token == w.owner_identity
          then ok true
          else drop_recorded h w.operation_id
    ]

-- One waiter, against the operations before it.
unfoldable pub check_waiter : Caller → Host → List ℕ → Waiter → Result Bool
unfolding waiter_metadata reservation_fits protection_fits waiter_stays
check_waiter c h ops w = do
  require (valid_private_id w.operation_id) invalid_id
  require (not (contains w.operation_id ops)) duplicate_operation
  require (waiter_metadata c.now w) bad_waiter_metadata
  require (leb w.bypass_count maximum_bypasses) bad_bypass_count
  require
      (waiter_time w.queued_at c.now w.last_bypassed_at
        && waiter_time w.queued_at c.now w.protected_at)
      bad_waiter_time
  require (reservation_fits c.now w) bad_reservation
  require (protection_fits (weight c.cpus c.limits w.class) (full_capacity c) c.now w)
      premature_protection
  waiter_stays c h w

unfoldable pub reconcile_waiters : Caller → Host → List ℕ → List Waiter → Result (Kept Waiter)
unfolding check_waiter keep_item
reconcile_waiters c h ops [] = ok (record { items = []; pruned = 0; changed = false })
reconcile_waiters c h ops (w ∷ ws) =
    let expected = weight c.cpus c.limits w.class in
    let rest = reconcile_waiters c h (w.operation_id ∷ ops) ws in
    check_waiter c h ops w >>= λ stays. rest >>= λ k.
    ok (keep_item stays (not (w.weight == expected)) (record w { weight = expected }) k)

unfoldable pub hold_valid : ℕ → Hold → Bool
hold_valid now d =
    valid_private_id d.operation_id
    && not (d.pid == 0)
    && not (d.owner_identity == 0)
    && not (d.held_since == 0)
    && leb d.held_since (now + maximum_clock_skew)

abbrev pub hold_stays : Caller → Host → Hold → Bool
hold_stays c h d = h.alive d.pid && same? (c.identity d.pid) (some d.owner_identity)

-- reconcileAdmissionHolds.
unfoldable pub reconcile_holds : Caller → Host → List ℕ → List Hold → Result (Kept Hold)
unfolding hold_valid keep_item
reconcile_holds c h ops [] = ok (record { items = []; pruned = 0; changed = false })
reconcile_holds c h ops (d ∷ ds) =
    let rest = reconcile_holds c h (d.operation_id ∷ ops) ds in
    require (hold_valid c.now d) bad_hold
    >> (require (not (contains d.operation_id ops)) duplicate_hold
        >> (rest >>= λ k. ok (keep_item (hold_stays c h d) false d k)))

pub record Reconciled : Type 0 where
  pub state : WorkState
  pub pruned_leases : ℕ
  pub pruned_waiters : ℕ
  pub changed : Bool

-- The state after its three loops.
unfoldable pub assemble : Caller → WorkState → Kept Lease → Kept Waiter → Kept Hold → Reconciled
assemble c s ls ws ds =
    let ws' = sort_waiters ws.items in
    let s₁ = record s {
      leases = ls.items;
      waiters = ws';
      legacy_active = s.legacy_active && not (is_empty ls.items && is_empty ws');
    } in
    let (s₂, moved) = advance_work_override s₁ c.now in
    record {
      state = record s₂ { admission_holds = ds.items; pruned_admission_holds = ds.pruned };
      pruned_leases = ls.pruned;
      pruned_waiters = ws.pruned;
      changed = s.migrated || ls.changed || ws.changed || moved || ds.changed;
    }

unfoldable pub reconcile : Caller → Host → WorkState → Result Reconciled
unfolding reconcile_leases reconcile_waiters reconcile_holds assemble
reconcile c h s = do
  ls ← reconcile_leases c h s.legacy_active [] [] s.leases
  ws ← reconcile_waiters c h (lease_operations s.leases) s.waiters
  ds ← reconcile_holds c h [] s.admission_holds
  ok (assemble c s ls ws ds)
