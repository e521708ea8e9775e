-- ===== src/Ledger/Requests/Sequence.antt =====
-- The sequence of pins that a request for priority makes, sessionpressure/workoverride.go.
use session_pressure.Ledger.{Waiter, waiter_operations, WorkState}
use session_pressure.Ledger.Override.{
  live_pins, pinned, maximum_override_queue, persisted_work_state_schema,
  override_queue_minimum_schema, work_override_positions,
}
use session_pressure.Common.{
  List, ℕ, ◌≡◌, some, ◌∷◌, contains, sym, true, All, Bool-cases, ◌⊎◌, ◌==◌, ap, refl, inl, none,
  inr, ◌∙◌, Option-cases, ==→eq, arith, [], false, All-map, Bool, length, ◌≤◌, ltb, ◌&&◌, not,
  is_empty, leb, Distinct,
}
use session_pressure.Ledger.Requests.{
  resolve, in_front, plan, pin, Promotion, request, record_intents, override_waiters,
}
use session_pressure.Ledger.Operations.{
  Result, find_waiter, ok, err, waiter_not_found, Caller, too_many_overrides, queue_unsupported,
}
use session_pressure.Ledger.Results.{bind_ok, require_ok, ok_inj, Result-cases}
use session_pressure.Ledger.Override.Pins.{
  live_pins-Within, live_pins-Distinct, live_pins_fixed, All-unseen,
}

in_front_ok :
    {A : Type 0} (x : A) (rest : Result (List A)) (out : List A)
    → in_front x rest ≡ ok out
    → (xs : List A) × (rest ≡ ok xs) × (out ≡ x ∷ xs)
in_front_ok x (ok xs) out e = (xs, refl, sym (ok_inj _ out e))
in_front_ok x (err f) out e = cc

find_waiter_ok :
    (op : ℕ) (ws : List Waiter) (w : Waiter)
    → find_waiter op ws ≡ some w
    → (w.operation_id ≡ op) × (contains op (waiter_operations ws) ≡ true)
unfolding find_waiter
find_waiter_ok op [] w e = cc
find_waiter_ok op (v ∷ vs) w e = elim (Bool-cases (v.operation_id == op)) [
  | inl q ↦
      let same : some v ≡ some w = rw q at e in
      (
        ap (λ o. elim o as (λ _. ℕ) [ none ↦ op | some u ↦ u.operation_id ]) (sym same)
            ∙ ==→eq v.operation_id op q,
        ground arith,
      )
  | inr q ↦ let p = find_waiter_ok op vs w (rw q at e) in (p.0, ground (arith, p.1))
]

live_pins_again :
    (live seen ops : List ℕ) (op : ℕ)
    → contains op seen ≡ true
    → live_pins live seen (op ∷ ops) ≡ live_pins live seen ops
unfolding live_pins
live_pins_again live seen ops op q = rw q refl

pub live_pins_next :
    (live seen ops : List ℕ) (op : ℕ)
    → contains op seen ≡ false
    → contains op live ≡ true
    → live_pins live seen (op ∷ ops) ≡ op ∷ live_pins live (op ∷ seen) ops
unfolding live_pins
live_pins_next live seen ops op q l = rw (q, l) refl

-- Each requested operation was seen before, or is live.
abbrev pub Answered : List ℕ → List ℕ → List ℕ → Type 0
Answered live seen = All (λ op. (contains op seen ≡ true) ⊎ (contains op live ≡ true))

-- Live pins behind a live one.
Answered-more :
    (live seen : List ℕ) (op : ℕ) (ops : List ℕ)
    → contains op live ≡ true
    → Answered live (op ∷ seen) ops
    → Answered live seen ops
Answered-more live seen op ops l a =
    All-map _ _ ops
      (λ x p. elim p [
        | inl m ↦ elim (Bool-cases (x == op)) [
          | inl same ↦ inr (rw (==→eq x op same) l)
          | inr other ↦ inl (ground arith)
        ]
        | inr m ↦ inr m
      ])
      a

-- What was resolved are the live operations of the request, each once, and all of it is live.
pub resolve_lem :
    (queue : List Waiter) (seen ops : List ℕ) (ws : List Waiter)
    → resolve queue seen ops ≡ ok ws
    → (waiter_operations ws ≡ live_pins (waiter_operations queue) seen ops)
      × Answered (waiter_operations queue) seen ops
unfolding resolve live_pins
resolve_lem queue seen [] ws e = (ap waiter_operations (sym (ok_inj [] ws e)), tt)
resolve_lem queue seen (op ∷ ops) ws e = elim (Bool-cases (contains op seen)) [
  | inl q ↦
      let p = resolve_lem queue seen ops ws (rw q at e) in
      (p.0 ∙ sym (live_pins_again (waiter_operations queue) seen ops op q), (inl q, p.1))
  | inr q ↦ elim (Option-cases (find_waiter op queue)) [
    | inl f ↦ let e' : err waiter_not_found ≡ ok ws = rw (q, f, resolve) at e in cc
    | inr (w, f) ↦
        let e' : in_front w (resolve queue (op ∷ seen) ops) ≡ ok ws = rw (q, f, resolve) at e in
        let (vs, e₁, e₂) = in_front_ok w (resolve queue (op ∷ seen) ops) ws e' in
        let p = resolve_lem queue (op ∷ seen) ops vs e₁ in
        let (named, live) = find_waiter_ok op queue w f in
        (
          rw (e₂, named, p.0) (sym (live_pins_next (waiter_operations queue) seen ops op q live)),
          (inr live, Answered-more (waiter_operations queue) seen op ops live p.1),
        )
  ]
]

-- A plan that succeeds.
pub plan_ok :
    (c : Caller) (audited : ℕ → Bool) (all append_pinned : Bool) (ops : List ℕ) (s : WorkState)
    (ws : List Waiter) (ps : List Promotion)
    → plan c audited all append_pinned ops s ≡ ok (ws, ps)
    → (resolve s.waiters [] (request all append_pinned ops s) ≡ ok ws)
      × (length ws ≤ maximum_override_queue)
      × ((ltb 1 (length ws) && ltb (persisted_work_state_schema s) override_queue_minimum_schema)
          ≡ false)
unfolding plan
plan_ok c audited all append_pinned ops s ws ps e =
    let (_, e₁) = require_ok (not (all && is_empty s.waiters)) waiter_not_found _ _ e in
    let (vs, e₂, e₃) = bind_ok (resolve s.waiters [] (request all append_pinned ops s)) _ _ e₁ in
    let (few, e₄) = require_ok (leb (length vs) maximum_override_queue) too_many_overrides _ _ e₃ in
    let (held, e₅) =
      require_ok
        (not
          (ltb 1 (length vs) && ltb (persisted_work_state_schema s) override_queue_minimum_schema))
        queue_unsupported _ _ e₄ in
    let (_, _, e₆) = bind_ok (record_intents c audited s (work_override_positions s) 0 vs) _ _ e₅ in
    let same = ap (λ p. p.0) (ok_inj _ _ e₆) in rw (sym same) (e₂, ground arith, ground arith)

pub pinned-pin :
    (now : ℕ) (head : ℕ) (tail : List ℕ) (s : WorkState)
    → pinned (pin now (head ∷ tail) s) ≡ head ∷ tail
unfolding pin
pinned-pin now head tail s = elim (Option-cases s.override_operation) [
  | inl e ↦ rw e refl
  | inr (op, e) ↦ elim (Bool-cases (head == op)) [
    | inl same ↦ rw (e, same) (ap (λ x. x ∷ tail) (sym (==→eq head op same)))
    | inr other ↦ rw (e, other) refl
  ]
]

-- A mutation that succeeds pins the live operations of its request, each once, all of it live.
pub override_waiters_ok :
    (c : Caller) (audited : ℕ → Bool) (all append_pinned : Bool) (ops : List ℕ) (s : WorkState)
    (ps : List Promotion)
    → (override_waiters c audited all append_pinned ops s).1 ≡ ok ps
    → (ws : List Waiter) × ((override_waiters c audited all append_pinned ops s).0
        ≡ pin c.now (waiter_operations ws) s)
      × (plan c audited all append_pinned ops s ≡ ok (ws, ps))
unfolding override_waiters
override_waiters_ok c audited all append_pinned ops s ps e =
    elim (Result-cases (plan c audited all append_pinned ops s)) [
      | inl (f, q) ↦ let e' : err f ≡ ok ps = rw (q, override_waiters) at e in cc
      | inr ((ws, ps'), q) ↦
          let e' : ok ps' ≡ ok ps = rw (q, override_waiters) at e in
          rw (q, override_waiters, sym (ok_inj ps' ps e')) (ws, refl, refl)
    ]

pub pin-apart :
    (now : ℕ) (ops : List ℕ) (s : WorkState)
    → ((pin now ops s).waiters ≡ s.waiters) × ((pin now ops s).leases ≡ s.leases)
unfolding pin
pin-apart now [] s = (refl, refl)
pin-apart now (op ∷ ops) s = (refl, refl)

-- Of a request that is not empty, the positions become its live pins, and all of it is queued.
pub override_waiters_positions :
    (c : Caller) (audited : ℕ → Bool) (all append_pinned : Bool) (ops : List ℕ) (s : WorkState)
    (ps : List Promotion) (first : ℕ) (more : List ℕ)
    → request all append_pinned ops s ≡ first ∷ more
    → (override_waiters c audited all append_pinned ops s).1 ≡ ok ps
    → let s' = (override_waiters c audited all append_pinned ops s).0 in
      (work_override_positions s' ≡ live_pins (waiter_operations s.waiters) [] (first ∷ more))
      × (s'.waiters ≡ s.waiters)
      × (s'.leases ≡ s.leases)
      × Answered (waiter_operations s.waiters) [] (first ∷ more)
unfolding work_override_positions
override_waiters_positions c audited all append_pinned ops s ps first more asked e =
    let (ws, moved, planned) = override_waiters_ok c audited all append_pinned ops s ps e in
    let (resolved, _, _) = plan_ok c audited all append_pinned ops s ws ps planned in
    let live = waiter_operations s.waiters in
    let (same, answered) = resolve_lem s.waiters [] (first ∷ more) ws (rw asked at resolved) in
    let queued : contains first live ≡ true = elim answered.0 [ inl never ↦ cc | inr l ↦ l ] in
    let head = live_pins_next live [] more first refl queued in
    let apart = pin-apart c.now (waiter_operations ws) s in
    let pins : pinned (pin c.now (waiter_operations ws) s) ≡ live_pins live [] (first ∷ more) =
      rw (same, head) (pinned-pin c.now first (live_pins live (first ∷ []) more) s) in
    rw (moved, apart.0, apart.1, pins)
      (
        live_pins_fixed live [] (live_pins live [] (first ∷ more))
            (live_pins-Within live [] (first ∷ more)) (live_pins-Distinct live [] (first ∷ more))
            (All-unseen (live_pins live [] (first ∷ more))),
        refl,
        refl,
        answered,
      )

-- A request of distinct operations that is all live is its own list of live pins.
pub live_pins-Answered :
    (live ops : List ℕ) → Distinct ops → Answered live [] ops → live_pins live [] ops ≡ ops
live_pins-Answered live ops d a =
    live_pins_fixed live [] ops (All-map _ _ ops (λ x p. elim p [ inl never ↦ cc | inr l ↦ l ]) a) d
      (All-unseen ops)
