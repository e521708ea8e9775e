-- ===== src/Ledger/Select.antt =====
-- The selectors of sessionpressure/worklease.go and the override of sessionpressure/workoverride.go.
pub mod Safety
pub mod Order
use session_pressure.Common.{
  Bool, false, ℕ, List, Option, ◌&&◌, some, leb, none, sum_of, ◌+◌, if◌then◌else◌, [], is_some, ltb,
  ◌==◌, ◌∷◌, ◌-◌, take, not, true,
}
use session_pressure.Limits.{WorkClass, is_express_class}
use session_pressure.Ledger.{
  Waiter, Selection, WorkState, ProtectionReason, no_selection, Lease, no_waiter_fits_capacity,
  queue_empty, protected_bounded_drain, is_pressure, charged_weight, DecisionReason,
  pressure_reservation, is_exclusive, protected_exclusive_drain, green_express_drain_ride,
  exclusive_capacity, bypass_limit, bypass_age, materialized, milliseconds,
  fifo_green_express_overcommit, queue_head_fits, fifo_head_does_not_fit,
  priority_override_selected, oldest_feasible_head_bypass, fifo_head_fits,
  priority_override_bounded_drain, green_express_overcommit,
}

-- Verified host headroom.
pub record GreenWindow : Type 0 where
  pub active : Bool
  pub overcommit : ℕ

abbrev pub closed_window : GreenWindow
closed_window = record { active = false; overcommit = 0 }

abbrev pub green_express_overcommit_units : ℕ
green_express_overcommit_units = 2

abbrev pub selector_scan_limit : ℕ
selector_scan_limit = 64

abbrev pub maximum_bypasses : ℕ
maximum_bypasses = 4

abbrev pub reservation_age : ℕ
reservation_age = milliseconds 30_000

-- The first bypass lies at least the reservation age back.
abbrev pub bypass_aged : Option ℕ → ℕ → Bool
bypass_aged none now = false
bypass_aged (some at) now = leb (at + reservation_age) now

-- Why the head of the queue reserves the drain, if it does.
unfoldable pub work_waiter_protection : Waiter → ℕ → ℕ → Option ProtectionReason
work_waiter_protection w capacity now =
    if is_pressure w.reservation_kind && is_some w.reserved_at
    then some pressure_reservation
    else if ltb 0 capacity && w.weight == capacity
    then some exclusive_capacity
    else if leb maximum_bypasses w.bypass_count
    then some bypass_limit
    else if bypass_aged w.last_bypassed_at now
    then some bypass_age
    else if is_some w.protected_at
    then some materialized
    else none

-- Whether a candidate may ride along a drain: riders, candidate and head fit the capacity together.
abbrev pub may_ride : Waiter → ℕ → ℕ → ℕ → Waiter → Bool
may_ride head available capacity express_leased c =
    is_express_class c.class
    && leb c.weight available
    && leb (express_leased + c.weight + head.weight) capacity

unfoldable pub first_rider : (Waiter → Bool) → List Waiter → Option ℕ
first_rider ride [] = none
first_rider ride (c ∷ cs) =
    let rest = first_rider ride cs in if ride c then some c.operation_id else rest

-- The branch of a protected head.
unfoldable pub select_protected :
    Waiter → List Waiter → ℕ → ℕ → GreenWindow → ℕ → ProtectionReason → Selection
select_protected head rest available capacity green express_leased reason =
    let drain : Selection = record {
      selected = none;
      protected = some head.operation_id;
      reason = protected_bounded_drain;
      bypassed = [];
    } in
    if leb head.weight available
    then (record drain {
      selected = some head.operation_id;
      reason = DecisionReason.protected reason;
    })
    else if is_exclusive reason
    then (record drain { reason = protected_exclusive_drain })
    else if green.active
    then elim (first_rider (may_ride head available capacity express_leased) rest) [
      | some op ↦ record drain { selected = some op; reason = green_express_drain_ride }
      | none ↦ drain
    ]
    else drain

-- A candidate that only the green window's overcommit admits.
abbrev pub may_overcommit : ℕ → ℕ → GreenWindow → Waiter → Bool
may_overcommit used capacity green c =
    green.active && is_express_class c.class && leb (used + c.weight) (capacity + green.overcommit)

-- The scan over an unprotected queue; `is_head` is `index == 0`.
unfoldable pub first_feasible : ℕ → ℕ → GreenWindow → Bool → List Waiter → Selection
first_feasible used capacity green is_head [] = record no_selection {
  reason = no_waiter_fits_capacity;
}
first_feasible used capacity green is_head (c ∷ cs) =
    let later = first_feasible used capacity green false cs in
    let bypassed_head = if is_head then [] else 0 ∷ [] in
    if leb c.weight (capacity - used)
    then (record {
      selected = some c.operation_id;
      protected = none;
      reason = if is_head then queue_head_fits else oldest_feasible_head_bypass;
      bypassed = bypassed_head;
    })
    else if may_overcommit used capacity green c
    then (record {
      selected = some c.operation_id;
      protected = none;
      reason = green_express_overcommit;
      bypassed = bypassed_head;
    })
    else later

-- Bounded lookahead.
unfoldable pub select_work_waiter : List Waiter → ℕ → ℕ → ℕ → GreenWindow → ℕ → Selection
select_work_waiter [] used capacity now green express_leased = record no_selection {
  reason = queue_empty;
}
select_work_waiter (head ∷ rest) used capacity now green express_leased =
    elim (work_waiter_protection head capacity now) [
      | some reason ↦
          select_protected head (take 63 rest) (capacity - used) capacity green express_leased
            reason
      | none ↦ first_feasible used capacity green true (take selector_scan_limit (head ∷ rest))
    ]

-- Strict first-in first-out.
unfoldable pub select_fifo_work_waiter : List Waiter → ℕ → ℕ → ℕ → GreenWindow → Selection
select_fifo_work_waiter [] used capacity now green = record no_selection { reason = queue_empty }
select_fifo_work_waiter (head ∷ rest) used capacity now green =
    let reserved : Option ℕ = elim (work_waiter_protection head capacity now) [
      | some reason ↦ some head.operation_id
      | none ↦ none
    ] in
    if ltb capacity (used + head.weight)
    then if may_overcommit used capacity green head
      then (record {
        selected = some head.operation_id;
        protected = reserved;
        reason = fifo_green_express_overcommit;
        bypassed = [];
      })
      else (record {
        selected = none;
        protected = reserved;
        reason = fifo_head_does_not_fit;
        bypassed = [];
      })
    else (record {
      selected = some head.operation_id;
      protected = reserved;
      reason = fifo_head_fits;
      bypassed = [];
    })

pub data SchedulingPolicy : Type 0 where
  bounded fifo : SchedulingPolicy

-- The weight of the express work under lease.
unfoldable pub express_leased_weight : List Lease → ℕ
express_leased_weight = sum_of (λ l. if is_express_class l.class then charged_weight l else 0)

unfoldable pub select_waiter :
    SchedulingPolicy → List Waiter → ℕ → ℕ → ℕ → GreenWindow → ℕ → Selection
select_waiter bounded ws used capacity now green express_leased =
    select_work_waiter ws used capacity now green express_leased
select_waiter fifo ws used capacity now green express_leased =
    select_fifo_work_waiter ws used capacity now green

-- An operator's override takes the drain for the named waiter, if it is still queued.
unfoldable pub select_overridden_work_waiter : List Waiter → ℕ → ℕ → ℕ → Option Selection
select_overridden_work_waiter [] used capacity op = none
select_overridden_work_waiter (w ∷ ws) used capacity op =
    let later = select_overridden_work_waiter ws used capacity op in
    if w.operation_id == op
    then some (
        if leb w.weight (capacity - used)
        then (record {
          selected = some op;
          protected = some op;
          reason = priority_override_selected;
          bypassed = [];
        })
        else (record {
          selected = none;
          protected = some op;
          reason = priority_override_bounded_drain;
          bypassed = [];
        }))
    else later

unfoldable pub select_state_waiter :
    SchedulingPolicy → WorkState → ℕ → ℕ → ℕ → GreenWindow → Selection
select_state_waiter policy s used capacity now green =
    let ordinary =
      select_waiter policy s.waiters used capacity now green (express_leased_weight s.leases) in
    elim s.override_operation [
      | none ↦ ordinary
      | some op ↦ elim (select_overridden_work_waiter s.waiters used capacity op) [
        | some selection ↦ selection
        | none ↦ ordinary
      ]
    ]

-- Waiters that have earned protection are marked, once.
unfoldable pub materialize_work_protections : ℕ → ℕ → List Waiter → List Waiter
materialize_work_protections capacity now [] = []
materialize_work_protections capacity now (w ∷ ws) =
    let rest = materialize_work_protections capacity now ws in
    if not (is_some w.protected_at) && is_some (work_waiter_protection w capacity now)
    then record w { protected_at = some now } ∷ rest
    else w ∷ rest
