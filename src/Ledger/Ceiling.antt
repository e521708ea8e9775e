-- ===== src/Ledger/Ceiling.antt =====
-- The ceiling on admission without a queue place, and the operator's pin.
use session_pressure.Limits.{is_express_class}
use session_pressure.Ledger.{
  WorkState, Lease, Waiter, Selection, used_weight, priority_override_selected,
  priority_override_bounded_drain, charged_weight,
}
use session_pressure.Common.{
  ℕ, List, ◌≡◌, none, if◌then◌else◌, some, is_empty, ◌++◌, leb, ◌∷◌, [], true, ◌-◌, Bool-cases,
  ◌==◌, ◌+◌, ◌≤◌, inl, ◌⊎◌, inr, arith, sum_of-append, ◌∙◌, refl, Option, ap,
}
use session_pressure.Ledger.Select.{
  select_overridden_work_waiter, select_state_waiter, SchedulingPolicy, GreenWindow,
}
use session_pressure.Ledger.Operations.{
  acquire, find_waiter, effective_capacity, full_capacity, Caller, ok,
}

acquire_outcome :
    (c : Caller) (ceiling : ℕ) (green : GreenWindow) (l : Lease) (s : WorkState)
    → (acquire c ceiling green l s).1 ≡ ok tt
    → (is_empty s.waiters ≡ true)
      × ((acquire c ceiling green l s).0 ≡ record s { leases = s.leases ++ l ∷ [] })
      × ((used_weight s.leases + l.weight ≤ effective_capacity c ceiling)
          ⊎ ((is_express_class l.class ≡ true)
              × (green.active ≡ true)
              × (effective_capacity c ceiling ≡ full_capacity c)
              × (used_weight s.leases + l.weight ≤ full_capacity c + green.overcommit)))
unfolding acquire
acquire_outcome c ceiling green l s h = (ground arith, ground arith, ground arith)

-- A lease that is admitted without queueing found no waiter, is added at the end, and leaves the
-- charged weight within the caller's effective capacity; or it is express work, the capacity is the
-- full one and the green window open, and the charged weight stays within the window's overcommit.
pub acquire_admits :
    (c : Caller) (ceiling : ℕ) (green : GreenWindow) (l : Lease) (s : WorkState)
    → l.parked_at ≡ none
    → (acquire c ceiling green l s).1 ≡ ok tt
    → let s' = (acquire c ceiling green l s).0 in
      (s'.leases ≡ s.leases ++ l ∷ [])
      × (is_empty s.waiters ≡ true)
      × ((used_weight s'.leases ≤ effective_capacity c ceiling)
          ⊎ ((is_express_class l.class ≡ true)
              × (green.active ≡ true)
              × (effective_capacity c ceiling ≡ full_capacity c)
              × (used_weight s'.leases ≤ full_capacity c + green.overcommit)))
acquire_admits c ceiling green l s fresh h =
    let (idle, added, room) = acquire_outcome c ceiling green l s h in
    let sum : used_weight (s.leases ++ l ∷ []) ≡ used_weight s.leases + l.weight = charged in
    rw (added, sum) (refl, idle, room)
  where
    charged : used_weight (s.leases ++ l ∷ []) ≡ used_weight s.leases + l.weight
    charged = sum_of-append charged_weight s.leases (l ∷ []) ∙ rw fresh (omega arith)

-- The selection for a pinned waiter.
abbrev pin_selection : ℕ → ℕ → ℕ → Waiter → Selection
pin_selection used capacity op w =
    if leb w.weight (capacity - used)
    then (record {
      selected = some op;
      protected = some op;
      reason = priority_override_selected;
      bypassed = [];
    })
    else (record {
      selected = none;
      protected = some op;
      reason = priority_override_bounded_drain;
      bypassed = [];
    })

abbrev choice : ℕ → ℕ → ℕ → Option Waiter → Option Selection
choice used capacity op none = none
choice used capacity op (some w) = some (pin_selection used capacity op w)

overridden :
    (ws : List Waiter) (used capacity op : ℕ) (w : Waiter)
    → find_waiter op ws ≡ some w
    → select_overridden_work_waiter ws used capacity op ≡ some (pin_selection used capacity op w)
unfolding select_overridden_work_waiter find_waiter
overridden [] used capacity op w h = cc
overridden (v ∷ ws) used capacity op w h = elim (Bool-cases (v.operation_id == op)) [
  | inl e ↦ let same : some v ≡ some w = rw e at h in rw e (ap (choice used capacity op) same)
  | inr e ↦ rw e (overridden ws used capacity op w (rw e at h))
]

-- The operator's pin takes the drain: while the pinned operation is queued, the selection protects
-- it, bypasses nobody and selects nothing else; it is selected exactly when it fits beside the work
-- under lease.
pub override_takes_drain :
    (policy : SchedulingPolicy) (s : WorkState) (used capacity now : ℕ) (green : GreenWindow)
    (op : ℕ) (w : Waiter)
    → s.override_operation ≡ some op
    → find_waiter op s.waiters ≡ some w
    → let sel = select_state_waiter policy s used capacity now green in
      (sel.protected ≡ some op)
      × (sel.bypassed ≡ [])
      × (sel.selected ≡ (if leb w.weight (capacity - used) then some op else none))
unfolding select_state_waiter
override_takes_drain policy s used capacity now green op w pin queued =
    rw (pin, select_state_waiter, overridden s.waiters used capacity op w queued)
      (ground arith, ground arith, ground arith)
