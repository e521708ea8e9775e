-- ===== src/Ledger/Override/Pins.antt =====
-- The pins after an advance: each is queued, none twice, in the order of the request, and a second
-- advance changes nothing.
use session_pressure.Common.{
  List, Option, ℕ, All, ◌∷◌, contains, Distinct, not, ◌≡◌, Bool-cases, [], is_some, true, ◌&&◌,
  false, inl, arith, is_empty, refl, inr, ap, same?, some, none, Bool,
}
use session_pressure.Ledger.{WorkState, waiter_operations}
use session_pressure.Ledger.Override.{
  live_pins, advance_work_override, advance_to, work_override_positions, equal_lists, pinned,
}

abbrev pub Within : List ℕ → List ℕ → Type 0
Within live = All (λ x. contains x live ≡ true)

pub live_pins-Within : (live seen ops : List ℕ) → Within live (live_pins live seen ops)
unfolding live_pins
live_pins-Within live seen [] = tt
live_pins-Within live seen (op ∷ ops) =
    elim (Bool-cases (not (contains op seen) && contains op live)) [
      | inl e ↦ rw e (ground arith, live_pins-Within live (op ∷ seen) ops)
      | inr e ↦ rw e (live_pins-Within live seen ops)
    ]

-- What was seen does not come back.
live_pins_unseen :
    (live seen ops : List ℕ) (a : ℕ)
    → contains a seen ≡ true
    → contains a (live_pins live seen ops) ≡ false
unfolding live_pins
live_pins_unseen live seen [] a h = refl
live_pins_unseen live seen (op ∷ ops) a h =
    elim (Bool-cases (not (contains op seen) && contains op live)) [
      | inl e ↦ rw e (ground (arith, live_pins_unseen live (op ∷ seen) ops a))
      | inr e ↦ rw e (live_pins_unseen live seen ops a h)
    ]

pub live_pins-Distinct : (live seen ops : List ℕ) → Distinct (live_pins live seen ops)
unfolding live_pins
live_pins-Distinct live seen [] = tt
live_pins-Distinct live seen (op ∷ ops) =
    elim (Bool-cases (not (contains op seen) && contains op live)) [
      | inl e ↦ rw e (
        live_pins_unseen live (op ∷ seen) ops op (ground arith),
        live_pins-Distinct live (op ∷ seen) ops,
      )
      | inr e ↦ rw e (live_pins-Distinct live seen ops)
    ]

pub unseen_cons :
    (op : ℕ) (seen xs : List ℕ)
    → contains op xs ≡ false
    → All (λ x. contains x seen ≡ false) xs
    → All (λ x. contains x (op ∷ seen) ≡ false) xs
unseen_cons op seen [] n a = tt
unseen_cons op seen (x ∷ xs) n a = (ground arith, unseen_cons op seen xs (ground arith) a.1)

-- A list that is live, has no repetition and meets nothing seen is its own list of live pins.
pub live_pins_fixed :
    (live seen ops : List ℕ)
    → Within live ops
    → Distinct ops
    → All (λ x. contains x seen ≡ false) ops
    → live_pins live seen ops ≡ ops
unfolding live_pins
live_pins_fixed live seen [] w d u = refl
live_pins_fixed live seen (op ∷ ops) w d u =
    rw (u.0, w.0)
      (ap (λ r. op ∷ r)
        (live_pins_fixed live (op ∷ seen) ops w.1 d.1 (unseen_cons op seen ops d.0 u.1)))

pub All-unseen : (ops : List ℕ) → All (λ x. contains x [] ≡ false) ops
All-unseen [] = tt
All-unseen (x ∷ xs) = (refl, All-unseen xs)

equal_lists_lem : (xs ys : List ℕ) → equal_lists xs ys ≡ true → xs ≡ ys
equal_lists_lem [] [] h = refl
equal_lists_lem [] (y ∷ ys) h = cc
equal_lists_lem (x ∷ xs) [] h = cc
equal_lists_lem (x ∷ xs) (y ∷ ys) h = ground (arith, equal_lists_lem xs ys)

unpinned :
    (o : Option ℕ) (q : List ℕ)
    → (not (is_some o) && is_empty q) ≡ true
    → elim o as (λ _. List ℕ) [ none ↦ q | some op ↦ op ∷ q ] ≡ []
unpinned none [] e = refl
unpinned none (x ∷ q) e = cc
unpinned (some op) q e = cc

pinned-advance_to :
    (ps : List ℕ) (s : WorkState) (now : ℕ)
    → let s' = (advance_to ps s now).0 in
      (pinned s' ≡ ps) × (s'.waiters ≡ s.waiters) × (s'.leases ≡ s.leases)
unfolding advance_to
pinned-advance_to [] s now =
    elim (Bool-cases (not (is_some s.override_operation) && is_empty s.override_queue)) [
      | inl e ↦ rw e (unpinned s.override_operation s.override_queue e, refl, refl)
      | inr e ↦ rw e (refl, refl, refl)
    ]
pinned-advance_to (head ∷ tail) s now =
    elim (Bool-cases
      (same? (some head) s.override_operation && equal_lists tail s.override_queue)) [
        | inl e ↦ rw e (kept s.override_operation s.override_queue e, refl, refl)
        | inr e ↦ rw e (refl, refl, refl)
      ]
  where
    kept :
        (o : Option ℕ) (q : List ℕ)
        → (same? (some head) o && equal_lists tail q) ≡ true
        → elim o as (λ _. List ℕ) [ none ↦ q | some op ↦ op ∷ q ] ≡ head ∷ tail
    kept none q e = cc
    kept (some op) q e = ground (arith, equal_lists_lem tail q)

-- An advance leaves the waiters and the leases alone, and pins exactly the live pins, in order.
pub advance_pins :
    (s : WorkState) (now : ℕ)
    → let s' = (advance_work_override s now).0 in
      (pinned s' ≡ work_override_positions s) × (s'.waiters ≡ s.waiters) × (s'.leases ≡ s.leases)
unfolding advance_work_override work_override_positions live_pins
advance_pins s now =
    elim (Bool-cases (not (is_some s.override_operation) && is_empty s.override_queue)) [
      | inl e ↦ rw e (idle s.override_operation s.override_queue e, refl, refl)
      | inr e ↦ rw e (pinned-advance_to (work_override_positions s) s now)
    ]
  where
    idle :
        (o : Option ℕ) (q : List ℕ)
        → (not (is_some o) && is_empty q) ≡ true
        → let p : List ℕ = elim o [ none ↦ q | some op ↦ op ∷ q ] in
          p ≡ live_pins (waiter_operations s.waiters) [] p
    idle none [] e = refl
    idle none (x ∷ q) e = cc
    idle (some op) q e = cc

-- After an advance every pin is queued and none stands twice.
pub advance_pins_queued :
    (s : WorkState) (now : ℕ)
    → let s' = (advance_work_override s now).0 in
      Within (waiter_operations s'.waiters) (pinned s') × Distinct (pinned s')
unfolding work_override_positions
advance_pins_queued s now =
    let (p, w, _) = advance_pins s now in
    rw (p, w)
      (
        live_pins-Within (waiter_operations s.waiters) [] (pinned s),
        live_pins-Distinct (waiter_operations s.waiters) [] (pinned s),
      )

equal_lists_refl : (xs : List ℕ) → equal_lists xs xs ≡ true
equal_lists_refl [] = refl
equal_lists_refl (x ∷ xs) = ground (arith, equal_lists_refl xs)

-- The record holds a list of pins the way an advance writes it.
abbrev is_written : List ℕ → WorkState → Bool
is_written [] s = not (is_some s.override_operation) && is_empty s.override_queue
is_written (head ∷ tail) s =
    same? (some head) s.override_operation && equal_lists tail s.override_queue

advance_to_written :
    (ps : List ℕ) (s : WorkState) (now : ℕ) → is_written ps (advance_to ps s now).0 ≡ true
unfolding advance_to
advance_to_written [] s now =
    elim (Bool-cases (not (is_some s.override_operation) && is_empty s.override_queue)) [
      | inl e ↦ rw e e
      | inr e ↦ rw e refl
    ]
advance_to_written (head ∷ tail) s now =
    elim (Bool-cases
      (same? (some head) s.override_operation && equal_lists tail s.override_queue)) [
        | inl e ↦ rw e e
        | inr e ↦ rw e (ground (arith, equal_lists_refl tail))
      ]

settled :
    (ps : List ℕ) (s : WorkState) (now : ℕ)
    → is_written ps s ≡ true
    → advance_to ps s now ≡ (s, false)
unfolding advance_to
settled [] s now e = rw e refl
settled (head ∷ tail) s now e = rw e refl

advance_written :
    (s : WorkState) (now : ℕ)
    → is_written (work_override_positions s) (advance_work_override s now).0 ≡ true
unfolding advance_work_override work_override_positions live_pins
advance_written s now =
    elim (Bool-cases (not (is_some s.override_operation) && is_empty s.override_queue)) [
      | inl e ↦ rw (e, unpinned s.override_operation s.override_queue e) e
      | inr e ↦ rw e (advance_to_written (work_override_positions s) s now)
    ]

-- The positions survive an advance.
positions_kept :
    (s : WorkState) (now : ℕ)
    → work_override_positions (advance_work_override s now).0 ≡ work_override_positions s
unfolding work_override_positions
positions_kept s now =
    let (p, w, _) = advance_pins s now in
    let ps = live_pins (waiter_operations s.waiters) [] (pinned s) in
    rw (p, w)
      (live_pins_fixed (waiter_operations s.waiters) [] ps
        (live_pins-Within (waiter_operations s.waiters) [] (pinned s))
        (live_pins-Distinct (waiter_operations s.waiters) [] (pinned s)) (All-unseen ps))

-- An advance that follows an advance changes nothing, whenever it comes.
pub advance_twice :
    (s : WorkState) (now later : ℕ)
    → let s' = (advance_work_override s now).0 in advance_work_override s' later ≡ (s', false)
unfolding advance_work_override
advance_twice s now later =
    let s' = (advance_work_override s now).0 in
    elim (Bool-cases (not (is_some s'.override_operation) && is_empty s'.override_queue)) [
      | inl e ↦ rw e refl
      | inr e ↦
          rw (e, positions_kept s now)
            (settled (work_override_positions s) s' later (advance_written s now))
    ]
