-- ===== src/Ledger/Requests/Priority.antt =====
-- What operators and agents get of a request for priority, sessionpressure/workoverride.go.
use session_pressure.Ledger.{WorkState, waiter_operations, Waiter}
use session_pressure.Ledger.Operations.{Result, Caller, ok, err, waiter_not_found}
use session_pressure.Ledger.Override.{
  live_pins, work_override_positions, pinned, maximum_override_queue,
}
use session_pressure.Ledger.Requests.{
  checked, override_operations, prioritize_waiter, request, Promotion, override_waiters,
  check_request, plan, override_all_waiters,
}
use session_pressure.Common.{
  List, All, ℕ, ◌++◌, Bool, contains, ◌∷◌, ◌≡◌, [], Distinct, true, false, if◌then◌else◌, ◌||◌, ◌∙◌,
  Bool-cases, inl, inr, ap, refl, arith, take, suc, zero, subst, sym,
}
use session_pressure.Ledger.Requests.Sequence.{
  override_waiters_positions, Answered, live_pins-Answered, live_pins_next,
}
use session_pressure.Ledger.Override.Pins.{
  Within, live_pins-Within, live_pins-Distinct, All-unseen, unseen_cons,
}

All-last : {A : Type 0} (P : A → Type 0) (xs : List A) (x : A) → All P (xs ++ x ∷ []) → P x
All-last P [] x a = a.0
All-last P (y ∷ xs) x a = All-last P xs x a.1

pub checked_ok :
    {A : Type 0} (before : Result (Unit {0})) (s : WorkState) (m : WorkState × Result A) (a : A)
    → (checked before s m).1 ≡ ok a
    → (checked before s m ≡ m) × (m.1 ≡ ok a)
unfolding checked
checked_ok (err e) s m a h = cc
checked_ok (ok u) s m a h = (refl, h)

-- An operator's request for distinct operations that succeeds makes exactly these, in their order,
-- the pinned sequence, whatever was pinned before, and leaves the queue and the leases as they are.
pub override_operations_pins :
    (c : Caller) (audited : ℕ → Bool) (ops : List ℕ) (s : WorkState) (ps : List Promotion)
    → Distinct ops
    → (override_operations c audited ops s).1 ≡ ok ps
    → let s' = (override_operations c audited ops s).0 in
      (work_override_positions s' ≡ ops) × (s'.waiters ≡ s.waiters) × (s'.leases ≡ s.leases)
unfolding override_operations request
override_operations_pins c audited [] s ps d e = cc
override_operations_pins c audited (op ∷ ops) s ps d e =
    let mutation = override_waiters c audited false false (op ∷ ops) s in
    let (same, done_ok) = checked_ok (check_request (op ∷ ops)) s mutation ps e in
    let (moved, ws, ls, answered) =
      override_waiters_positions c audited false false (op ∷ ops) s ps op ops refl done_ok in
    rw same (moved ∙ live_pins-Answered (waiter_operations s.waiters) (op ∷ ops) d answered, ws, ls)

-- Live pins, and one more operation behind them.
live_pins_behind :
    (live seen ops : List ℕ) (op : ℕ)
    → contains op live ≡ true
    → Within live ops
    → Distinct ops
    → All (λ x. contains x seen ≡ false) ops
    → live_pins live seen (ops ++ op ∷ [])
      ≡ (if contains op ops || contains op seen then ops else ops ++ op ∷ [])
unfolding live_pins
live_pins_behind live seen [] op l w d u = elim (Bool-cases (contains op seen)) [
  | inl e ↦ rw e refl
  | inr e ↦ rw (e, l) refl
]
live_pins_behind live seen (x ∷ ops) op l w d u =
    let unseen = unseen_cons x seen ops d.0 u.1 in
    live_pins_next live seen (ops ++ op ∷ []) x u.0 w.0
    ∙ ap (λ r. x ∷ r) (live_pins_behind live (x ∷ seen) ops op l w.1 d.1 unseen)
    ∙ elim (Bool-cases (contains op ops)) [
      | inl e ↦ rw e (ground arith)
      | inr e ↦ rw e (ground arith)
    ]

-- The queue and its pins, after an operation is put behind the pins.
prioritize_ok :
    (c : Caller) (audited : ℕ → Bool) (op : ℕ) (s : WorkState) (ps : List Promotion)
    (before : List ℕ)
    → work_override_positions s ≡ before
    → (override_waiters c audited false true (op ∷ []) s).1 ≡ ok ps
    → let s' = (override_waiters c audited false true (op ∷ []) s).0 in
      (work_override_positions s' ≡ live_pins (waiter_operations s.waiters) [] (before ++ op ∷ []))
      × (s'.waiters ≡ s.waiters)
      × (s'.leases ≡ s.leases)
      × Answered (waiter_operations s.waiters) [] (before ++ op ∷ [])
unfolding request
prioritize_ok c audited op s ps [] same e =
    override_waiters_positions c audited false true (op ∷ []) s ps op [] (rw same refl) e
prioritize_ok c audited op s ps (x ∷ xs) same e =
    override_waiters_positions c audited false true (op ∷ []) s ps x (xs ++ op ∷ []) (rw same refl)
      e

-- An agent's request that succeeds puts its operation behind the pinned sequence, and leaves the
-- sequence as it is where the operation is in it already; it is never put in front of a pin.
pub prioritize_waiter_pins :
    (c : Caller) (audited : ℕ → Bool) (op : ℕ) (s : WorkState) (ps : List Promotion)
    → (prioritize_waiter c audited op s).1 ≡ ok ps
    → let s' = (prioritize_waiter c audited op s).0 in
      let before = work_override_positions s in
      (work_override_positions s' ≡ (if contains op before then before else before ++ op ∷ []))
      × (s'.waiters ≡ s.waiters)
      × (s'.leases ≡ s.leases)
unfolding prioritize_waiter work_override_positions
prioritize_waiter_pins c audited op s ps e =
    let mutation = override_waiters c audited false true (op ∷ []) s in
    let (same, done_ok) = checked_ok (check_request (op ∷ [])) s mutation ps e in
    let before = work_override_positions s in
    let live = waiter_operations s.waiters in
    let (moved, ws, ls, answered) = prioritize_ok c audited op s ps before refl done_ok in
    let queued : contains op live ≡ true = elim (All-last _ before op answered) [
      | inl never ↦ cc
      | inr l ↦ l
    ] in
    rw same (
      moved
          ∙ live_pins_behind live [] before op queued (live_pins-Within live [] (pinned s))
              (live_pins-Distinct live [] (pinned s)) (All-unseen before)
          ∙ ground arith,
      ws,
      ls,
    )

contains-take : (a n : ℕ) (xs : List ℕ) → contains a xs ≡ false → contains a (take n xs) ≡ false
contains-take a zero xs h = refl
contains-take a (suc n) [] h = refl
contains-take a (suc n) (x ∷ xs) h = ground (arith, contains-take a n xs)

Distinct-take : (n : ℕ) (xs : List ℕ) → Distinct xs → Distinct (take n xs)
Distinct-take zero xs d = tt
Distinct-take (suc n) [] d = tt
Distinct-take (suc n) (x ∷ xs) d = (contains-take x n xs d.0, Distinct-take n xs d.1)

all_pins :
    (c : Caller) (audited : ℕ → Bool) (s : WorkState) (ps : List Promotion) (queue : List Waiter)
    → s.waiters ≡ queue
    → Distinct (waiter_operations s.waiters)
    → (override_waiters c audited true false [] s).1 ≡ ok ps
    → let s' = (override_waiters c audited true false [] s).0 in
      work_override_positions s' ≡ take maximum_override_queue (waiter_operations s.waiters)
unfolding override_waiters plan request
all_pins c audited s ps [] same d e = let e' : err waiter_not_found ≡ ok ps = rw same at e in cc
all_pins c audited s ps (w ∷ ws) same d e =
    let live = waiter_operations s.waiters in
    let first : take maximum_override_queue live ≡ w.operation_id ∷ take 63 (waiter_operations ws) =
      rw same refl in
    let (moved, _, _, answered) =
      override_waiters_positions c audited true false [] s ps w.operation_id
        (take 63 (waiter_operations ws)) first e in
    moved
    ∙ live_pins-Answered live (w.operation_id ∷ take 63 (waiter_operations ws))
        (subst Distinct first (Distinct-take maximum_override_queue live d)) answered
    ∙ sym first

-- A request for the whole queue that succeeds pins its first 64 operations in the order of the queue,
-- when no operation is queued twice.
pub override_all_waiters_pins :
    (c : Caller) (audited : ℕ → Bool) (s : WorkState) (ps : List Promotion)
    → Distinct (waiter_operations s.waiters)
    → (override_all_waiters c audited s).1 ≡ ok ps
    → let s' = (override_all_waiters c audited s).0 in
      work_override_positions s' ≡ take maximum_override_queue (waiter_operations s.waiters)
unfolding override_all_waiters
override_all_waiters_pins c audited s ps d e = all_pins c audited s ps s.waiters refl d e
