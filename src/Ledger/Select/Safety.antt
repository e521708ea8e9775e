-- ===== src/Ledger/Select/Safety.antt =====
-- What a selection promises: it admits only what the weighted ceiling allows, and it never passes
-- a protected head except with express work that cannot delay it.
use session_pressure.Limits.{is_express_class}
use session_pressure.Common.{
  ℕ, ◌≤◌, ◌+◌, ◌≡◌, Bool, ◌⊎◌, List, true, some, All, Any, ◌∷◌, arith, [], false, Bool-cases,
  Option-cases, inl, leb, inr, ◌-◌, take, Any-map, Any-take, Any-All, All-take, none, refl,
}
use session_pressure.Ledger.{Waiter, ProtectionReason, is_exclusive}
use session_pressure.Ledger.Select.{
  GreenWindow, select_work_waiter, first_rider, first_feasible, select_protected,
  work_waiter_protection, may_overcommit, selector_scan_limit, may_ride,
}

-- The candidate fits the ceiling, or the open green window admits it as express work.
abbrev pub Fits : ℕ → ℕ → GreenWindow → Waiter → Type 0
Fits used capacity green w =
    (used + w.weight ≤ capacity)
    ⊎ ((green.active ≡ true)
        × (is_express_class w.class ≡ true)
        × (used + w.weight ≤ capacity + green.overcommit))

abbrev pub Names : ℕ → Waiter → Type 0
Names op w = w.operation_id ≡ op

abbrev pub Weighs : Waiter → Type 0
Weighs w = 1 ≤ w.weight

pub first_rider_lem :
    (p : Waiter → Bool) (cs : List Waiter) (op : ℕ)
    → first_rider p cs ≡ some op
    → Any (λ w. Names op w × (p w ≡ true)) cs
unfolding first_rider
first_rider_lem p [] op h = cc
first_rider_lem p (c ∷ cs) op h = elim (Bool-cases (p c)) [
  | inl e ↦ inl (ground arith, e)
  | inr e ↦ inr (first_rider_lem p cs op (ground arith))
]

first_feasible-Fits :
    (used capacity : ℕ) (green : GreenWindow) (is_head : Bool) (cs : List Waiter) (op : ℕ)
    → All Weighs cs
    → (first_feasible used capacity green is_head cs).selected ≡ some op
    → Any (λ w. Names op w × Fits used capacity green w) cs
unfolding first_feasible
first_feasible-Fits used capacity green is_head [] op a h = cc
first_feasible-Fits used capacity green is_head (c ∷ cs) op a h =
    elim (Bool-cases (leb c.weight (capacity - used))) [
      | inl e ↦ inl (ground arith, ground arith)
      | inr e ↦ elim (Bool-cases (may_overcommit used capacity green c)) [
        | inl o ↦ inl (ground arith, ground arith)
        | inr o ↦ inr (first_feasible-Fits used capacity green false cs op a.1 (ground arith))
      ]
    ]

-- A protected head that does not fit leaves the drain to riders, under an open window.
pub select_protected_rider :
    (head : Waiter) (rest : List Waiter) (available capacity : ℕ) (green : GreenWindow)
    (express_leased : ℕ) (reason : ProtectionReason) (op : ℕ)
    → leb head.weight available ≡ false
    → (select_protected head rest available capacity green express_leased reason).selected ≡ some op
    → (green.active ≡ true)
      × (is_exclusive reason ≡ false)
      × (first_rider (may_ride head available capacity express_leased) rest ≡ some op)
unfolding select_protected
select_protected_rider head rest available capacity green express_leased reason op e h =
    elim (Option-cases (first_rider (may_ride head available capacity express_leased) rest)) [
      | inl r ↦ ground arith
      | inr (x, r) ↦ ground arith
    ]

-- What a rider of a drain satisfies.
abbrev pub Rides : Waiter → ℕ → ℕ → ℕ → Waiter → Type 0
Rides head used capacity express_leased w =
    (is_express_class w.class ≡ true)
    × (w.weight ≤ capacity - used)
    × (express_leased + w.weight + head.weight ≤ capacity)

pub select_protected-Rides :
    (head : Waiter) (rest : List Waiter) (used capacity : ℕ) (green : GreenWindow)
    (express_leased : ℕ) (reason : ProtectionReason) (op : ℕ)
    → leb head.weight (capacity - used) ≡ false
    → (select_protected head
        (take 63 rest)
        (capacity - used)
        capacity
        green
        express_leased
        reason).selected
      ≡ some op
    → Any (λ w. Names op w × Rides head used capacity express_leased w) rest
select_protected-Rides head rest used capacity green express_leased reason op e h =
    let (_, _, r) =
      select_protected_rider head (take 63 rest) (capacity - used) capacity green express_leased
        reason op e h in
    Any-map _ _ rest (λ w p. (p.0, ground arith))
      (Any-take _ 63 rest (first_rider_lem _ (take 63 rest) op r))

select_protected-Fits :
    (head : Waiter) (rest : List Waiter) (used capacity : ℕ) (green : GreenWindow)
    (express_leased : ℕ) (reason : ProtectionReason) (op : ℕ)
    → All Weighs (head ∷ rest)
    → (select_protected head
        (take 63 rest)
        (capacity - used)
        capacity
        green
        express_leased
        reason).selected
      ≡ some op
    → Any (λ w. Names op w × Fits used capacity green w) (head ∷ rest)
unfolding select_protected
select_protected-Fits head rest used capacity green express_leased reason op a h =
    elim (Bool-cases (leb head.weight (capacity - used))) [
      | inl e ↦ inl (ground arith, ground arith)
      | inr e ↦ inr (
          Any-map _ _ rest (λ w p. (p.0.0, inl (omega arith)))
            (Any-All _ _ rest
              (select_protected-Rides head rest used capacity green express_leased reason op e h)
              a.1))
    ]

-- With every weight positive, the operation that bounded lookahead selects is in the queue, and it
-- fits the capacity beside the work under lease, or it is express work inside the overcommit of an
-- open green window.
pub select_work_waiter-Fits :
    (ws : List Waiter) (used capacity now : ℕ) (green : GreenWindow) (express_leased op : ℕ)
    → All Weighs ws
    → (select_work_waiter ws used capacity now green express_leased).selected ≡ some op
    → Any (λ w. Names op w × Fits used capacity green w) ws
unfolding select_work_waiter
select_work_waiter-Fits [] used capacity now green express_leased op a h = cc
select_work_waiter-Fits (head ∷ rest) used capacity now green express_leased op a h =
    elim (Option-cases (work_waiter_protection head capacity now)) [
      | inl e ↦ unprotected (rw (e, select_work_waiter) at h)
      | inr (reason, e) ↦
          select_protected-Fits head rest used capacity green express_leased reason op a
            (rw (e, select_work_waiter) at h)
    ]
  where
    unprotected :
        (first_feasible used capacity green true (take selector_scan_limit (head ∷ rest))).selected
          ≡ some op
        → Any (λ w. Names op w × Fits used capacity green w) (head ∷ rest)
    unprotected k = Any-take _ 64 (head ∷ rest) (
        first_feasible-Fits used capacity green true (take 64 (head ∷ rest)) op
          (All-take _ 64 (head ∷ rest) a) k)

-- A protected head that fits is the one that is selected.
pub select_protected_head :
    (head : Waiter) (rest : List Waiter) (available capacity : ℕ) (green : GreenWindow)
    (express_leased : ℕ) (reason : ProtectionReason) (op : ℕ)
    → leb head.weight available ≡ true
    → (select_protected head rest available capacity green express_leased reason).selected ≡ some op
    → op ≡ head.operation_id
unfolding select_protected
select_protected_head head rest available capacity green express_leased reason op fits h =
    ground arith

first_feasible_bypassed :
    (used capacity : ℕ) (green : GreenWindow) (is_head : Bool) (cs : List Waiter)
    → let s = first_feasible used capacity green is_head cs in
      (s.bypassed ≡ []) ⊎ (s.bypassed ≡ 0 ∷ [])
unfolding first_feasible
first_feasible_bypassed used capacity green is_head [] = inl refl
first_feasible_bypassed used capacity green is_head (c ∷ cs) =
    ground (arith, first_feasible_bypassed used capacity green false cs)

select_protected_bypassed :
    (head : Waiter) (rest : List Waiter) (available capacity : ℕ) (green : GreenWindow)
    (express_leased : ℕ) (reason : ProtectionReason)
    → (select_protected head rest available capacity green express_leased reason).bypassed ≡ []
unfolding select_protected
select_protected_bypassed head rest available capacity green express_leased reason = ground arith

-- A bypass is counted only against a head that was not protected.
pub select_work_waiter_bypassed :
    (head : Waiter) (rest : List Waiter) (used capacity now : ℕ) (green : GreenWindow)
    (express_leased : ℕ)
    → let s = select_work_waiter (head ∷ rest) used capacity now green express_leased in
      (s.bypassed ≡ [])
      ⊎ ((s.bypassed ≡ 0 ∷ []) × (work_waiter_protection head capacity now ≡ none))
unfolding select_work_waiter
select_work_waiter_bypassed head rest used capacity now green express_leased =
    elim (Option-cases (work_waiter_protection head capacity now)) [
      | inl e ↦
          ground (arith, first_feasible_bypassed used capacity green true (take 64 (head ∷ rest)))
      | inr (reason, e) ↦ ground (arith, bypassed_none reason)
    ]
  where
    bypassed_none :
        (reason : ProtectionReason)
        → (select_protected head
            (take 63 rest)
            (capacity - used)
            capacity
            green
            express_leased
            reason).bypassed
          ≡ []
    bypassed_none reason =
        select_protected_bypassed head (take 63 rest) (capacity - used) capacity green
          express_leased reason
