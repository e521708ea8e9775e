-- ===== src/Ledger/Select/Order.antt =====
-- In which order waiters are admitted: a protected head is passed only by riders, a head
-- that fits is admitted, and the scan picks the first candidate that may go.
use session_pressure.Limits.{is_express_class}
use session_pressure.Common.{
  List, ℕ, Bool, ◌+◌, leb, Option, ◌≡◌, ◌∷◌, some, ◌≤◌, ◌-◌, none, arith, [], ◌≢◌, Option-cases,
  ◌||◌, if◌then◌else◌, false, take, true, inl, refl, inr, Any, Bool-cases, ◌&&◌, All, not, sym,
  All-take,
}
use session_pressure.Ledger.{Waiter, ProtectionReason, is_exclusive}
use session_pressure.Ledger.Select.{
  GreenWindow, select_work_waiter, select_protected, first_feasible, select_fifo_work_waiter,
  work_waiter_protection, may_overcommit, first_rider, may_ride,
}
use session_pressure.Ledger.Select.Safety.{
  Names, Rides, select_protected_head, select_protected_rider, select_protected-Rides, Weighs,
}

-- While the head of the queue is protected, bounded lookahead selects another operation only in an
-- open green window and when the protection is not for the whole capacity, and then it is express
-- work that is free to start now and that leaves, with all express work under lease, the head's
-- whole weight inside the capacity.
pub protected_head_passed :
    (head : Waiter) (rest : List Waiter) (used capacity now : ℕ) (green : GreenWindow)
    (express_leased : ℕ) (reason : ProtectionReason) (op : ℕ)
    → work_waiter_protection head capacity now ≡ some reason
    → (select_work_waiter (head ∷ rest) used capacity now green express_leased).selected ≡ some op
    → op ≢ head.operation_id
    → (green.active ≡ true)
      × (is_exclusive reason ≡ false)
      × Any (λ w. Names op w × Rides head used capacity express_leased w) rest
unfolding select_work_waiter
protected_head_passed head rest used capacity now green express_leased reason op e h ne =
    elim (Bool-cases (leb head.weight (capacity - used))) [
      | inl fits ↦ absurd (ne (selects_head fits))
      | inr full ↦
          let (active, shared, _) =
            select_protected_rider head (take 63 rest) (capacity - used) capacity green
              express_leased reason op full selected in
          (
            active,
            shared,
            select_protected-Rides head rest used capacity green express_leased reason op full
                selected,
          )
    ]
  where
    selected :
        (select_protected head
          (take 63 rest)
          (capacity - used)
          capacity
          green
          express_leased
          reason).selected
        ≡ some op
    selected = rw (e, select_work_waiter) at h

    selects_head : leb head.weight (capacity - used) ≡ true → op ≡ head.operation_id
    selects_head fits =
        select_protected_head head (take 63 rest) (capacity - used) capacity green express_leased
          reason op fits selected

-- A head that fits beside the work under lease is selected, protected or not.
pub select_work_waiter_progress :
    (head : Waiter) (rest : List Waiter) (used capacity now : ℕ) (green : GreenWindow)
    (express_leased : ℕ)
    → used + head.weight ≤ capacity
    → (select_work_waiter (head ∷ rest) used capacity now green express_leased).selected
      ≡ some head.operation_id
unfolding select_work_waiter select_protected first_feasible
select_work_waiter_progress head rest used capacity now green express_leased h =
    elim (Option-cases (work_waiter_protection head capacity now)) [
      | inl e ↦ rw (e, select_work_waiter) (ground arith)
      | inr (reason, e) ↦ rw (e, select_work_waiter) (ground arith)
    ]

-- What an unprotected queue may give away: what fits beside the work under lease, or express work
-- inside the overcommit of an open window.
abbrev pub admissible : ℕ → ℕ → GreenWindow → Waiter → Bool
admissible used capacity green w =
    leb (used + w.weight) capacity
    || green.active
      && is_express_class w.class
      && leb (used + w.weight) (capacity + green.overcommit)

-- What a drain may give away: express work that fits now, and that leaves, with all express work
-- under lease, the head's weight inside the capacity.
abbrev pub rides_along : Waiter → ℕ → ℕ → ℕ → Waiter → Bool
rides_along head used capacity express_leased w =
    is_express_class w.class
    && leb (used + w.weight) capacity
    && leb (express_leased + w.weight + head.weight) capacity

-- The operation of the first element that passes.
abbrev pub first_that : (Waiter → Bool) → List Waiter → Option ℕ
first_that p [] = none
first_that p (w ∷ ws) = let rest = first_that p ws in if p w then some w.operation_id else rest

-- A weight that is not zero is within what is left exactly when it fits beside what is used.
fits_left : (w used capacity : ℕ) → 1 ≤ w → leb w (capacity - used) ≡ leb (used + w) capacity
fits_left w used capacity h = ground arith

first_feasible_first :
    (used capacity : ℕ) (green : GreenWindow) (is_head : Bool) (cs : List Waiter)
    → All Weighs cs
    → (first_feasible used capacity green is_head cs).selected
      ≡ first_that (admissible used capacity green) cs
unfolding first_feasible
first_feasible_first used capacity green is_head [] a = refl
first_feasible_first used capacity green is_head (c ∷ cs) a = ground (
  arith,
  fits_left c.weight used capacity a.0,
  first_feasible_first used capacity green false cs a.1,
)

first_rider_first :
    (head : Waiter) (used capacity express_leased : ℕ) (cs : List Waiter)
    → All Weighs cs
    → first_rider (may_ride head (capacity - used) capacity express_leased) cs
      ≡ first_that (rides_along head used capacity express_leased) cs
unfolding first_rider
first_rider_first head used capacity express_leased [] a = refl
first_rider_first head used capacity express_leased (c ∷ cs) a =
    rw
      (
        fits_left c.weight used capacity a.0,
        first_rider_first head used capacity express_leased cs a.1,
      )
      refl

select_protected_first :
    (head : Waiter) (rest : List Waiter) (used capacity : ℕ) (green : GreenWindow)
    (express_leased : ℕ) (reason : ProtectionReason)
    → All Weighs (head ∷ rest)
    → (select_protected head rest (capacity - used) capacity green express_leased reason).selected
      ≡ (if leb (used + head.weight) capacity
          then some head.operation_id
          else if green.active && not (is_exclusive reason)
          then first_that (rides_along head used capacity express_leased) rest
          else none)
unfolding select_protected
select_protected_first head rest used capacity green express_leased reason a =
    rw (fits_left head.weight used capacity a.0)
      (elim (Option-cases
        (first_rider (may_ride head (capacity - used) capacity express_leased) rest)) [
          | inl e ↦
              let first = first_rider_first head used capacity express_leased rest a.1 in
              rw (e, sym first) (ground arith)
          | inr (op, e) ↦
              let first = first_rider_first head used capacity express_leased rest a.1 in
              rw (e, sym first) (ground arith)
        ])

-- With every weight positive, bounded lookahead over a queue whose head is not protected is the plain
-- search, through the first 64 waiters, for the oldest that fits the capacity beside the work under
-- lease or is express work inside the overcommit of an open green window. A protected head is selected
-- if it fits; if not, then in an open window and unless the protection is for the whole capacity, it
-- is the search, through the next 63, for the oldest express work that fits now and that leaves, with
-- all express work under lease, the head's weight inside the capacity; and otherwise nothing is.
pub select_work_waiter_oldest :
    (head : Waiter) (rest : List Waiter) (used capacity now : ℕ) (green : GreenWindow)
    (express_leased : ℕ)
    → All Weighs (head ∷ rest)
    → (select_work_waiter (head ∷ rest) used capacity now green express_leased).selected
      ≡ elim (work_waiter_protection head capacity now) [
        | none ↦ first_that (admissible used capacity green) (take 64 (head ∷ rest))
        | some reason ↦
            if leb (used + head.weight) capacity
            then some head.operation_id
            else if green.active && not (is_exclusive reason)
            then first_that (rides_along head used capacity express_leased) (take 63 rest)
            else none
      ]
unfolding select_work_waiter
select_work_waiter_oldest head rest used capacity now green express_leased a =
    elim (Option-cases (work_waiter_protection head capacity now)) [
      | inl e ↦
          rw (e, select_work_waiter)
            (first_feasible_first used capacity green true (take 64 (head ∷ rest))
              (All-take Weighs 64 (head ∷ rest) a))
      | inr (reason, e) ↦
          rw (e, select_work_waiter)
            (select_protected_first head (take 63 rest) used capacity green express_leased reason
              (a.0, All-take Weighs 63 rest a.1))
    ]

-- Strict first-in first-out selects the head or nothing, bypasses nobody, and selects it exactly
-- when it fits the ceiling or the overcommit of an open green window.
pub select_fifo_work_waiter_head :
    (head : Waiter) (rest : List Waiter) (used capacity now : ℕ) (green : GreenWindow)
    → let s = select_fifo_work_waiter (head ∷ rest) used capacity now green in
      (s.bypassed ≡ [])
      × (s.selected ≡ (
          if leb (used + head.weight) capacity || may_overcommit used capacity green head
          then some head.operation_id
          else none))
unfolding select_fifo_work_waiter
select_fifo_work_waiter_head head rest used capacity now green = (ground arith, ground arith)
