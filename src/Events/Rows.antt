-- ===== src/Events/Rows.antt =====
-- What an accepted row tells of a life cycle before and after it: the steps of
-- workEventLifecycleValidator.add in sessionpressure/workevent.go, read backwards.
use session_pressure.Common.{
  Option, Bool, ℕ, ◌≡◌, none, false, ◌⊎◌, true, Bool-cases, Option-cases, is_some, some, ◌&&◌, inl,
  not, inr, ◌∷◌, ◌||◌, refl, arith, sym,
}
use session_pressure.Events.{
  WorkEvent, WorkEventType, same_type, override_requested, reserved, same_class, reacquired,
  expired, same_int, queued, acquired, started, completed, failed, cancelled, reused,
}
use session_pressure.Events.Lifecycle.{
  ◌>>=◌, Lifecycle, LifecycleError, refused, Outcome, is_terminal_event, check_shape, mark_seen,
  advance_order, check_lease_id, check_command, check_session, accepted, has_seen, below,
  work_event_order, is_reconciliation_expiration, may_repeat, clashes, is_pressure_cycle,
  is_late_terminal, turn_reservation, close, follow,
}

-- The rank of the last stage moves on, but for an annotation, which needs an open operation.
abbrev pub Ordered : WorkEventType → Lifecycle → Option ℕ → Type 0
Ordered t s last =
    ((same_type t override_requested ≡ true) × (is_some s.terminal ≡ false) × (last ≡ s.last_order))
    ⊎ ((same_type t override_requested ≡ false)
        × ((below (work_event_order t) s.last_order && not (is_pressure_cycle s t)) ≡ false)
        × (last ≡ some (work_event_order t)))

-- The lease keeps its identity, unless a reservation is taken back.
abbrev pub Leased : WorkEventType → WorkEvent → Bool → Option ℕ → Option ℕ → Type 0
Leased t e held old new =
    ((e.lease_id ≡ none) × (new ≡ old))
    ⊎ ((id : ℕ) × (e.lease_id ≡ some id)
        × (new ≡ some id)
        × ((old ≡ none) ⊎ (old ≡ some id) ⊎ ((same_type t reacquired ≡ true) × (held ≡ true))))

abbrev pub Turned : WorkEventType → Bool → Bool → Type 0
Turned reserved old new = (old ≡ false) × (new ≡ true)
Turned reacquired old new = (old ≡ true) × (new ≡ false)
Turned _ old new = new ≡ old

-- The terminal row that counts: the first one, or the late real outcome after a lost lease.
abbrev pub ClosedAs : WorkEventType → WorkEvent → Option WorkEvent → Option WorkEvent → Type 0
ClosedAs t e old new =
    ((is_terminal_event t ≡ false) × (new ≡ old))
    ⊎ ((is_terminal_event t ≡ true)
        × (((old ≡ none) × (new ≡ some e))
            ⊎ ((first : WorkEvent) × (old ≡ some first)
                × (((same_type t expired ≡ true)
                      × (same_type first.event expired ≡ false)
                      × (is_reconciliation_expiration e.outcome ≡ true)
                      × (new ≡ old))
                    ⊎ ((is_late_terminal first e ≡ true) × (new ≡ some e))))))

lease_rule :
    (old : Option ℕ) (id : ℕ) (again held : Bool)
    → (clashes old id && (not again || not held)) ≡ false
    → (old ≡ none) ⊎ (old ≡ some id) ⊎ ((again ≡ true) × (held ≡ true))
lease_rule none id again held h = inl refl
lease_rule (some l) id true true h = inr (inr (refl, refl))
lease_rule (some l) id true false h = inr (inl (ground arith))
lease_rule (some l) id false held h = inr (inl (ground arith))

accepted_inj : {A : Type 0} (a b : A) → accepted a ≡ accepted b → a ≡ b
accepted_inj a b h = cc

refused-accepted : {A : Type 0} (error : LifecycleError) (a : A) → refused error ≡ accepted a → ⊥
refused-accepted error a h = cc

module _ (s r : Lifecycle) (e : WorkEvent) (k : Lifecycle → Outcome Lifecycle) where
  shape_step : (check_shape s e >>= k) ≡ accepted r → k s ≡ accepted r
  shape_step h = elim (Bool-cases (same_class e.class s.class && same_int e.weight s.weight)) [
    | inl b ↦ rw b at h
    | inr b ↦ absurd (refused-accepted _ r (rw b at h))
  ]

  mark_step :
      (mark_seen s e >>= k) ≡ accepted r
      → ((has_seen e.event s.seen && not (may_repeat e.event)) ≡ false)
        × (k (record s { seen = e.event ∷ s.seen }) ≡ accepted r)
  mark_step h = elim (Bool-cases (has_seen e.event s.seen && not (may_repeat e.event))) [
    | inl b ↦ absurd (refused-accepted _ r (rw b at h))
    | inr b ↦ (b, (rw b at h))
  ]

  order_step :
      (advance_order s e >>= k) ≡ accepted r
      → (last : Option ℕ) × Ordered e.event s last
        × (k (record s { last_order = last }) ≡ accepted r)
  order_step h = elim (Bool-cases (same_type e.event override_requested)) [
    | inl o ↦ elim (Bool-cases (is_some s.terminal)) [
      | inl b ↦ absurd (refused-accepted _ r (rw (o, b) at h))
      | inr b ↦ (s.last_order, inl (o, b, refl), (rw (o, b) at h))
    ]
    | inr o ↦
        elim (Bool-cases
          (below (work_event_order e.event) s.last_order && not (is_pressure_cycle s e.event))) [
            | inl b ↦ absurd (refused-accepted _ r (rw (o, b) at h))
            | inr b ↦ (some (work_event_order e.event), inr (o, b, refl), (rw (o, b) at h))
          ]
  ]

  lease_step :
      (check_lease_id s e >>= k) ≡ accepted r
      → (l : Option ℕ) × Leased e.event e s.is_reserved s.lease_id l
        × (k (record s { lease_id = l }) ≡ accepted r)
  lease_step h = elim (Option-cases e.lease_id) [
    | inl n ↦ (s.lease_id, inl (n, refl), (rw n at h))
    | inr (id, n) ↦
        elim (Bool-cases
          (clashes s.lease_id id && (not (same_type e.event reacquired) || not s.is_reserved))) [
            | inl b ↦ absurd (refused-accepted _ r (rw (n, b) at h))
            | inr b ↦ (
              some id,
              inr (
                id,
                n,
                refl,
                lease_rule s.lease_id id (same_type e.event reacquired) s.is_reserved b,
              ),
              (rw (n, b) at h),
            )
          ]
  ]

  command_step :
      (check_command s e >>= k) ≡ accepted r
      → (c : Option ℕ) × (k (record s { command_digest = c }) ≡ accepted r)
  command_step h = elim (Option-cases e.command_digest) [
    | inl n ↦ (s.command_digest, (rw n at h))
    | inr (d, n) ↦ elim (Bool-cases (clashes s.command_digest d)) [
      | inl b ↦ absurd (refused-accepted _ r (rw (n, b) at h))
      | inr b ↦ (some d, (rw (n, b) at h))
    ]
  ]

  session_step :
      (check_session s e >>= k) ≡ accepted r
      → (c : Option ℕ) × (k (record s { session_digest = c }) ≡ accepted r)
  session_step h = elim (Option-cases e.session_digest) [
    | inl n ↦ (s.session_digest, (rw n at h))
    | inr (d, n) ↦ elim (Bool-cases (clashes s.session_digest d)) [
      | inl b ↦ absurd (refused-accepted _ r (rw (n, b) at h))
      | inr b ↦ (some d, (rw (n, b) at h))
    ]
  ]

  turn_step_at :
      (t : WorkEventType)
      → e.event ≡ t
      → (turn_reservation s e >>= k) ≡ accepted r
      → (b : Bool) × Turned t s.is_reserved b × (k (record s { is_reserved = b }) ≡ accepted r)
  turn_step_at reserved q h = elim (Bool-cases s.is_reserved) [
    | inl b ↦ absurd (refused-accepted _ r (rw (q, b) at h))
    | inr b ↦ (true, (b, refl), (rw (q, b) at h))
  ]
  turn_step_at reacquired q h = elim (Bool-cases s.is_reserved) [
    | inl b ↦ (false, (b, refl), (rw (q, b) at h))
    | inr b ↦ absurd (refused-accepted _ r (rw (q, b) at h))
  ]
  turn_step_at queued q h = (s.is_reserved, refl, (rw q at h))
  turn_step_at acquired q h = (s.is_reserved, refl, (rw q at h))
  turn_step_at started q h = (s.is_reserved, refl, (rw q at h))
  turn_step_at completed q h = (s.is_reserved, refl, (rw q at h))
  turn_step_at failed q h = (s.is_reserved, refl, (rw q at h))
  turn_step_at cancelled q h = (s.is_reserved, refl, (rw q at h))
  turn_step_at expired q h = (s.is_reserved, refl, (rw q at h))
  turn_step_at reused q h = (s.is_reserved, refl, (rw q at h))
  turn_step_at override_requested q h = (s.is_reserved, refl, (rw q at h))

module _ (s r : Lifecycle) (e : WorkEvent) where
  close_ok :
      close s e ≡ accepted r
      → (t : Option WorkEvent) × ClosedAs e.event e s.terminal t × (r ≡ record s { terminal = t })
  close_ok h = elim (Bool-cases (is_terminal_event e.event)) [
    | inr n ↦ (s.terminal, inl (n, refl), accepted_inj r s (sym (rw n at h)))
    | inl y ↦ elim (Option-cases s.terminal) [
      | inl o ↦ (some e, inr (y, inl (o, refl)), accepted_inj r _ (sym (rw (y, o) at h)))
      | inr (first, o) ↦
          elim (Bool-cases (
            same_type e.event expired
            && not (same_type first.event expired)
            && is_reconciliation_expiration e.outcome)) [
              | inl c ↦ (
                s.terminal,
                inr (y, inr (first, o, inl (ground arith, ground arith, ground arith, refl))),
                accepted_inj r s (sym (rw (y, o, c) at h)),
              )
              | inr c ↦ elim (Bool-cases (is_late_terminal first e)) [
                | inl l ↦ (
                  some e,
                  inr (y, inr (first, o, inr (l, refl))),
                  accepted_inj r _ (sym (rw (y, o, c, l) at h)),
                )
                | inr l ↦ absurd (refused-accepted _ r (rw (y, o, c, l) at h))
              ]
            ]
    ]
  ]

-- All that an accepted row of a type tells.
pub record Followed (t : WorkEventType) (s r : Lifecycle) (e : WorkEvent) : Type 0 where
  pub fresh : (has_seen t s.seen && not (may_repeat t)) ≡ false
  pub marked : r.seen ≡ t ∷ s.seen
  pub ordered : Ordered t s r.last_order
  pub leased : Leased t e s.is_reserved s.lease_id r.lease_id
  pub turned : Turned t s.is_reserved r.is_reserved
  pub closed_as : ClosedAs t e s.terminal r.terminal

pub follow-Followed :
    (s r : Lifecycle) (e : WorkEvent) → follow s e ≡ accepted r → Followed e.event s r e
unfolding follow
follow-Followed s r e h =
    let h₁ = shape_step s r e _ h in
    let (fresh, h₂) = mark_step s r e _ h₁ in
    let (last, ordered, h₃) = order_step _ r e _ h₂ in
    let (l, leased, h₄) = lease_step _ r e _ h₃ in
    let (b, turned, h₅) = turn_step_at _ r e _ e.event refl h₄ in
    let (c, h₆) = command_step _ r e _ h₅ in
    let (d, h₇) = session_step _ r e _ h₆ in
    let (t, closed_as, q) = close_ok _ r e h₇ in
    rw q (record {
      fresh = fresh;
      marked = refl;
      ordered = ordered;
      leased = leased;
      turned = turned;
      closed_as = closed_as;
    })
