-- ===== src/Ledger/Bypasses.antt =====
-- The bound on bypasses: no step of the coordinator takes a waiter past the maximum.
use session_pressure.Ledger.Operations.{
  choose, charge_bypasses, drop_waiter, beat, take_lease, try_acquire, count_bypass, attempt,
  Caller, prepare, full_capacity, effective_capacity, effective_window, find_waiter,
}
use session_pressure.Ledger.{Waiter, Selection, Lease, WorkState, used_weight}
use session_pressure.Ledger.Select.{
  work_waiter_protection, select_work_waiter, select_fifo_work_waiter, select_waiter,
  select_overridden_work_waiter, SchedulingPolicy, GreenWindow, maximum_bypasses, bounded, fifo,
  materialize_work_protections, select_state_waiter, express_leased_weight,
}
use session_pressure.Common.{
  List, All, ℕ, ◌≤◌, ◌≡◌, [], none, inl, some, ◌⊎◌, ◌<◌, ◌∷◌, take, arith, inr, refl, Bool-cases,
  ◌==◌, not, is_some, ◌&&◌, Option-cases, same?,
}
use session_pressure.Ledger.Select.Safety.{select_work_waiter_bypassed}
use session_pressure.Ledger.Override.Pins.{advance_pins}

-- Every waiter has been bypassed at most as often as is allowed.
abbrev pub WithinBypasses : List Waiter → Type 0
WithinBypasses = All (λ w. w.bypass_count ≤ maximum_bypasses)

-- A selection bypasses nobody, or only a head that may still be bypassed.
abbrev LeavesRoom : List Waiter → Selection → Type 0
LeavesRoom ws sel =
    (sel.bypassed ≡ [])
    ⊎ ((sel.bypassed ≡ 0 ∷ []) × All (λ w. w.bypass_count < maximum_bypasses) (take 1 ws))

pub unprotected_count :
    (w : Waiter) (capacity now : ℕ)
    → work_waiter_protection w capacity now ≡ none
    → w.bypass_count < maximum_bypasses
unfolding work_waiter_protection
unprotected_count w capacity now h = ground arith

select_work_waiter_room :
    (ws : List Waiter) (used capacity now : ℕ) (green : GreenWindow) (express_leased : ℕ)
    → LeavesRoom ws (select_work_waiter ws used capacity now green express_leased)
unfolding select_work_waiter
select_work_waiter_room [] used capacity now green express_leased = inl refl
select_work_waiter_room (head ∷ rest) used capacity now green express_leased =
    elim (select_work_waiter_bypassed head rest used capacity now green express_leased) [
      | inl e ↦ inl e
      | inr (e, u) ↦ inr (e, (unprotected_count head capacity now u, tt))
    ]

select_fifo_room :
    (ws : List Waiter) (used capacity now : ℕ) (green : GreenWindow)
    → (select_fifo_work_waiter ws used capacity now green).bypassed ≡ []
unfolding select_fifo_work_waiter
select_fifo_room [] used capacity now green = refl
select_fifo_room (head ∷ rest) used capacity now green = ground arith

select_waiter_room :
    (p : SchedulingPolicy) (ws : List Waiter) (used capacity now : ℕ) (green : GreenWindow)
    (express_leased : ℕ)
    → LeavesRoom ws (select_waiter p ws used capacity now green express_leased)
unfolding select_waiter
select_waiter_room bounded ws used capacity now green x =
    select_work_waiter_room ws used capacity now green x
select_waiter_room fifo ws used capacity now green x =
    inl (select_fifo_room ws used capacity now green)

overridden_bypassed :
    (ws : List Waiter) (used capacity op : ℕ) (sel : Selection)
    → select_overridden_work_waiter ws used capacity op ≡ some sel
    → sel.bypassed ≡ []
unfolding select_overridden_work_waiter
overridden_bypassed [] used capacity op sel h = cc
overridden_bypassed (w ∷ ws) used capacity op sel h =
    ground (arith, overridden_bypassed ws used capacity op sel)

choose_room :
    (c : Caller) (ceiling : ℕ) (green : GreenWindow) (s : WorkState)
    → LeavesRoom s.waiters (choose c ceiling green s)
unfolding choose select_state_waiter
choose_room c ceiling green s = elim (Option-cases s.override_operation) [
  | inl e ↦ rw e ordinary
  | inr (op, e) ↦
      let used = used_weight s.leases in
      let eff = effective_capacity c ceiling in
      elim (Option-cases (select_overridden_work_waiter s.waiters used eff op)) [
        | inl none_left ↦ rw (e, select_state_waiter, none_left) ordinary
        | inr (sel, found) ↦
            rw (e, select_state_waiter, found)
              (inl (overridden_bypassed s.waiters used eff op sel found))
      ]
]
  where
    ordinary : LeavesRoom s.waiters (
        select_waiter c.policy s.waiters
          (used_weight s.leases)
          (effective_capacity c ceiling)
          c.now
          (effective_window c ceiling green)
          (express_leased_weight s.leases))
    ordinary =
        select_waiter_room c.policy s.waiters (used_weight s.leases) (effective_capacity c ceiling)
          c.now (effective_window c ceiling green) (express_leased_weight s.leases)

WithinBypasses-charge :
    (now : ℕ) (ws : List Waiter) (sel : Selection)
    → LeavesRoom ws sel
    → WithinBypasses ws
    → WithinBypasses (charge_bypasses now sel.bypassed ws)
unfolding charge_bypasses count_bypass
WithinBypasses-charge now ws sel (inl e) h = rw e h
WithinBypasses-charge now [] sel (inr (e, room)) h = rw e tt
WithinBypasses-charge now (w ∷ ws) sel (inr (e, room)) h = rw e (omega (arith, room.0), h.1)

WithinBypasses-drop :
    (op : ℕ) (ws : List Waiter) → WithinBypasses ws → WithinBypasses (drop_waiter op ws)
unfolding drop_waiter
WithinBypasses-drop op [] h = tt
WithinBypasses-drop op (w ∷ ws) h = elim (Bool-cases (w.operation_id == op)) [
  | inl e ↦ rw e h.1
  | inr e ↦ rw e (h.0, WithinBypasses-drop op ws h.1)
]

WithinBypasses-beat :
    (op now : ℕ) (ws : List Waiter) → WithinBypasses ws → WithinBypasses (beat op now ws)
unfolding beat
WithinBypasses-beat op now [] h = tt
WithinBypasses-beat op now (w ∷ ws) h = elim (Bool-cases (w.operation_id == op)) [
  | inl e ↦ rw e (h.0, h.1)
  | inr e ↦ rw e (h.0, WithinBypasses-beat op now ws h.1)
]

WithinBypasses-materialize :
    (capacity now : ℕ) (ws : List Waiter)
    → WithinBypasses ws
    → WithinBypasses (materialize_work_protections capacity now ws)
unfolding materialize_work_protections
WithinBypasses-materialize capacity now [] h = tt
WithinBypasses-materialize capacity now (w ∷ ws) h =
    let rest = WithinBypasses-materialize capacity now ws h.1 in
    elim (Bool-cases
      (not (is_some w.protected_at) && is_some (work_waiter_protection w capacity now))) [
        | inl e ↦ rw e (h.0, rest)
        | inr e ↦ rw e (h.0, rest)
      ]

WithinBypasses-take_lease :
    (now : ℕ) (sel shadow : Selection) (lease : Lease) (s : WorkState)
    → LeavesRoom s.waiters sel
    → WithinBypasses s.waiters
    → WithinBypasses (take_lease now sel shadow lease s).waiters
unfolding take_lease
WithinBypasses-take_lease now sel shadow lease s room h =
    let ws = charge_bypasses now sel.bypassed s.waiters in
    let s₁ = record s {
      waiters = drop_waiter lease.operation_id ws;
      last_selection = sel;
      last_shadow_selection = shadow;
    } in
    rw (advance_pins s₁ now).1
      (WithinBypasses-drop lease.operation_id ws (WithinBypasses-charge now s.waiters sel room h))

-- An attempt to acquire keeps every waiter within the maximum of bypasses, whoever is selected.
pub try_acquire-WithinBypasses :
    (c : Caller) (ceiling : ℕ) (green : GreenWindow) (lease : Lease) (s : WorkState)
    → WithinBypasses s.waiters
    → WithinBypasses (try_acquire c ceiling green lease s).0.waiters
unfolding try_acquire attempt prepare
try_acquire-WithinBypasses c ceiling green lease s h =
    let op = lease.operation_id in
    let ready = prepare c op s in
    let kept : WithinBypasses ready.waiters =
      WithinBypasses-materialize (full_capacity c) c.now (beat op c.now s.waiters)
        (WithinBypasses-beat op c.now s.waiters h) in
    let sel = choose c ceiling green ready in
    elim (Option-cases (find_waiter op s.waiters)) [
      | inl e ↦ rw (e, try_acquire) h
      | inr (own, e) ↦ elim (Bool-cases (same? sel.selected (some op))) [
        | inl e' ↦
            rw (e, try_acquire, e')
              (WithinBypasses-take_lease c.now sel _ (record lease { queued_at = own.queued_at })
                ready (choose_room c ceiling green ready) kept)
        | inr e' ↦ rw (e, try_acquire, e') kept
      ]
    ]
