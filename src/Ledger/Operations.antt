-- ===== src/Ledger/Operations.antt =====
-- The state changes of the coordinator: each is the `mutate` function that its operation hands to
-- `withState`, with the checks that the operation makes before it. A mutation returns the new state
-- also when it fails, because `withState` persists the state in both cases.
-- sessionpressure/worklease.go, sessionpressure/workadmissionhold.go.
use session_pressure.Ledger.Override.{advance_work_override}
use session_pressure.Ledger.Select.{
  GreenWindow, SchedulingPolicy, closed_window, maximum_bypasses, materialize_work_protections,
  select_state_waiter, select_work_waiter, bounded, fifo,
}
use session_pressure.Common.{
  Bool, ℕ, Option, if◌then◌else◌, ltb, some, ◌==◌, min, ◌^◌, ◌||◌, max, ◌&&◌, none, leb, ◌+◌, not,
  is_empty, ◌++◌, ◌∷◌, [], List, contains, keep_if, sort_by, is_some, update_at, same?,
}
use session_pressure.Limits.{WorkClass, WorkLimits, normalize_work_limits, is_express_class, weight}
use session_pressure.Limits.Checks.{LimitsError, validate_limits}
use session_pressure.Ledger.{
  Waiter, WorkState, Lease, OriginStamp, used_weight, Selection, unreserved, lease_operations,
  no_selection, queued_before, waiter_operations,
}

pub data WorkError : Type 0 where
  capacity_full unfair reserved upgrade_pending invalid_id invalid_identity bad_pid : WorkError
  already_leased already_queued waiter_missing lease_missing lease_disappeared : WorkError
  operation_changed park_schema_pinned nothing_dropped waiter_not_found not_pinned : WorkError
  queue_unsupported too_many_overrides audit_failed : WorkError
  bad_schema unexpected_owner bad_lease_id duplicate_lease duplicate_operation : WorkError
  bad_lease_metadata bad_waiter_metadata bad_bypass_count bad_waiter_time bad_reservation :
      WorkError
  premature_protection supervisor_unresolved owner_unresolved not_recorded : WorkError
  bad_hold duplicate_hold not_written no_operations : WorkError
  bad_limits : LimitsError → WorkError

-- What an operation returns: an error of the source, or its value.
pub data Result {ℓ} (Value : Type ℓ) : Type ℓ where
  err : WorkError → Result Value
  ok : Value → Result Value

-- An early return on a condition that does not hold.
abbrev pub require : Bool → WorkError → Result (Unit {0})
require holds e = if holds then ok tt else err e

infixl 5 ◌>>=◌
abbrev pub ◌>>=◌ {ℓ κ} :
    {Value : Type ℓ} {Next : Type κ} → Result Value → (Value → Result Next) → Result Next
outcome >>= next = elim outcome [ err e ↦ err e | ok value ↦ next value ]

infixl 5 ◌>>◌
abbrev pub ◌>>◌ {ℓ} : {Next : Type ℓ} → Result (Unit {0}) → Result Next → Result Next
checked >> next = elim checked [ err e ↦ err e | ok _ ↦ next ]

-- The configuration of a coordinator, and what it reads of its process and clock at one call.
pub record Caller : Type 0 where
  pub cpus : ℕ
  pub limits : WorkLimits
  pub policy : SchedulingPolicy
  pub pid : ℕ
  pub now : ℕ
  pub stamp : OriginStamp
  pub identity : ℕ → Option ℕ  -- ProcessIdentity; `none` is an error
  pub fresh_id : ℕ  -- what randomPrivateID returns

abbrev pub legacy_owner_token : ℕ
legacy_owner_token = 1

abbrev pub reservation_minimum_schema : ℕ
reservation_minimum_schema = 6

abbrev pub full_capacity : Caller → ℕ
full_capacity c = (normalize_work_limits c.cpus c.limits).capacity

-- 16 bytes in lowercase hexadecimal.
unfoldable pub valid_private_id : ℕ → Bool
valid_private_id op = ltb op (2 ^ 128)

unfoldable pub accept_identity : Option ℕ → Result ℕ
accept_identity none = err invalid_identity
accept_identity (some token) =
    if token == 0 || token == legacy_owner_token then err invalid_identity else ok token

unfoldable pub identity_for_pid : Caller → ℕ → Result ℕ
identity_for_pid c pid = if pid == 0 then err bad_pid else accept_identity (c.identity pid)

unfoldable pub check_caller : Caller → Result (Unit {0})
check_caller c =
    if c.pid == 0
    then err bad_pid
    else elim (validate_limits c.cpus c.limits) [ none ↦ ok tt | some e ↦ err (bad_limits e) ]

unfoldable pub new_lease_record : Caller → WorkClass → ℕ → Result Lease
new_lease_record c class op = do
  check_caller c
  owner ← identity_for_pid c c.pid
  require (valid_private_id op) invalid_id
  ok (record {
    id = c.fresh_id;
    operation_id = op;
    class = class;
    weight = weight c.cpus c.limits class;
    pid = c.pid;
    owner_identity = owner;
    supervisor_pid = c.pid;
    supervisor_identity = owner;
    queued_at = c.now;
    started_at = c.now;
    origin = c.stamp;
    parked_at = none;
  })

-- A caller's ceiling is brought between 1 and the capacity; below the capacity there is no green
-- window.
abbrev pub effective_capacity : Caller → ℕ → ℕ
effective_capacity c ceiling = min (max 1 ceiling) (full_capacity c)

abbrev pub effective_window : Caller → ℕ → GreenWindow → GreenWindow
effective_window c ceiling green =
    if ltb (effective_capacity c ceiling) (full_capacity c) then closed_window else green

-- The bounded overcommit of an open green window takes an express lease.
abbrev pub green_admits : ℕ → ℕ → GreenWindow → Lease → Bool
green_admits used eff window l =
    window.active && is_express_class l.class && leb (used + l.weight) (eff + window.overcommit)

-- The mutation of AcquireOperationWithCapacity.
unfoldable pub acquire :
    Caller → ℕ → GreenWindow → Lease → WorkState → WorkState × Result (Unit {0})
acquire c ceiling green lease s =
    let eff = effective_capacity c ceiling in
    let used = used_weight s.leases in
    if not (is_empty s.waiters)
    then (s, err unfair)
    else if ltb eff (used + lease.weight)
        && not (green_admits used eff (effective_window c ceiling green) lease)
    then (s, err capacity_full)
    else (record s { leases = s.leases ++ lease ∷ [] }, ok tt)

-- Waiters are kept in the order of the queue.
abbrev pub sort_waiters : List Waiter → List Waiter
sort_waiters = sort_by queued_before

-- The record of RegisterWaiter, after its checks.
unfoldable pub new_waiter_record : Caller → WorkClass → ℕ → Result Waiter
new_waiter_record c class op = do
  check_caller c
  require (valid_private_id op) invalid_id
  owner ← identity_for_pid c c.pid
  ok (record {
    operation_id = op;
    class = class;
    weight = weight c.cpus c.limits class;
    pid = c.pid;
    owner_identity = owner;
    queued_at = c.now;
    heartbeat_at = c.now;
    origin = c.stamp;
    bypass_count = 0;
    last_bypassed_at = none;
    protected_at = none;
    reservation_kind = unreserved;
    reserved_at = none;
  })

-- The mutation of RegisterWaiter.
unfoldable pub register : Waiter → WorkState → WorkState × Result (Unit {0})
register w s =
    if contains w.operation_id (lease_operations s.leases)
    then (s, err already_leased)
    else if contains w.operation_id (waiter_operations s.waiters)
    then (s, err already_queued)
    else (record s { waiters = sort_waiters (s.waiters ++ w ∷ []) }, ok tt)

-- The waiter of an operation, with its heartbeat refreshed.
unfoldable pub beat : ℕ → ℕ → List Waiter → List Waiter
beat op now [] = []
beat op now (w ∷ ws) =
    let rest = beat op now ws in
    if w.operation_id == op then record w { heartbeat_at = now } ∷ ws else w ∷ rest

unfoldable pub find_waiter : ℕ → List Waiter → Option Waiter
find_waiter op [] = none
find_waiter op (w ∷ ws) =
    let rest = find_waiter op ws in if w.operation_id == op then some w else rest

-- `append(waiters[:position], waiters[position+1:]...)` at the first waiter of the operation.
unfoldable pub drop_waiter : ℕ → List Waiter → List Waiter
drop_waiter op [] = []
drop_waiter op (w ∷ ws) =
    let rest = drop_waiter op ws in if w.operation_id == op then ws else w ∷ rest

-- One more bypass; the first is timed, and the last that is allowed protects.
unfoldable pub count_bypass : ℕ → Waiter → Waiter
count_bypass now w =
    let n = w.bypass_count + 1 in
    record w {
      bypass_count = n;
      last_bypassed_at = elim w.last_bypassed_at [ none ↦ some now | some at ↦ some at ];
      protected_at =
          if leb maximum_bypasses n && not (is_some w.protected_at)
          then some now
          else w.protected_at;
    }

-- The bypasses that a selection counts, by index.
unfoldable pub charge_bypasses : ℕ → List ℕ → List Waiter → List Waiter
charge_bypasses now [] ws = ws
charge_bypasses now (i ∷ is) ws = charge_bypasses now is (update_at i (count_bypass now) ws)

-- Why the caller was not selected.
unfoldable pub refusal : Selection → WorkError
refusal sel =
    if is_some sel.protected
    then reserved
    else if is_some sel.selected
    then unfair
    else capacity_full

-- The part of TryAcquireWithCapacity that follows a selection of the caller.
unfoldable pub take_lease : ℕ → Selection → Selection → Lease → WorkState → WorkState
take_lease now sel shadow lease s =
    let s₁ = record s {
      waiters = drop_waiter lease.operation_id (charge_bypasses now sel.bypassed s.waiters);
      last_selection = sel;
      last_shadow_selection = shadow;
    } in
    let s₂ = (advance_work_override s₁ now).0 in record s₂ { leases = s₂.leases ++ lease ∷ [] }

unfoldable pub shadow_of : SchedulingPolicy → List Waiter → ℕ → ℕ → ℕ → Selection
shadow_of bounded ws used eff now = no_selection
shadow_of fifo ws used eff now = select_work_waiter ws used eff now closed_window 0

-- The state before a selection: the caller's heartbeat is refreshed, and protections are marked.
unfoldable pub prepare : Caller → ℕ → WorkState → WorkState
prepare c op s = record s {
  waiters = materialize_work_protections (full_capacity c) c.now (beat op c.now s.waiters);
}

-- The selection that decides an attempt.
unfoldable pub choose : Caller → ℕ → GreenWindow → WorkState → Selection
choose c ceiling green s =
    select_state_waiter c.policy s (used_weight s.leases) (effective_capacity c ceiling) c.now
      (effective_window c ceiling green)

-- The attempt of a caller that is queued, from the state made ready for the selection.
unfoldable pub attempt : Caller → ℕ → GreenWindow → Lease → WorkState → WorkState × Result Lease
unfolding refusal take_lease shadow_of
attempt c ceiling green lease s =
    let sel = choose c ceiling green s in
    if same? sel.selected (some lease.operation_id)
    then (
      take_lease c.now sel
          (shadow_of c.policy s.waiters (used_weight s.leases) (effective_capacity c ceiling) c.now)
          lease s,
      ok lease,
    )
    else (s, err (refusal sel))

-- The mutation of TryAcquireWithCapacity for the lease that its caller made ready.
unfoldable pub try_acquire : Caller → ℕ → GreenWindow → Lease → WorkState → WorkState × Result Lease
unfolding attempt prepare
try_acquire c ceiling green lease s = elim (find_waiter lease.operation_id s.waiters) [
  | none ↦ (s, err waiter_missing)
  | some own ↦
      attempt c ceiling green (record lease { queued_at = own.queued_at })
        (prepare c lease.operation_id s)
]

-- The mutation of Cancel.
unfoldable pub cancel : ℕ → ℕ → WorkState → WorkState
cancel op now s =
    (advance_work_override
      (record s { waiters = keep_if (λ w. not (w.operation_id == op)) s.waiters }) now).0

-- The mutation of Release.
unfoldable pub release : ℕ → WorkState → WorkState
release id s = record s { leases = keep_if (λ l. not (l.id == id)) s.leases }
