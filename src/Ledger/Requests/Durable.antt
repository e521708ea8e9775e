-- ===== src/Ledger/Requests/Durable.antt =====
-- A sequence of pins in the state file, sessionpressure/workoverride.go and worklease.go.
use session_pressure.Ledger.Requests.Priority.{checked_ok}
use session_pressure.Ledger.Reconcile.{Host}
use session_pressure.Ledger.Operations.{Caller, ok}
use session_pressure.Ledger.{WorkState, Waiter, waiter_operations}
use session_pressure.Ledger.Override.{
  persisted_work_state_schema, override_queue_minimum_schema, is_legacy_pinned, pinned,
  schema_current,
}
use session_pressure.Ledger.Requests.{
  pin, override_operations, Promotion, request, override_waiters, check_request,
}
use session_pressure.Ledger.Transaction.{raise_schema, blocks, with_state}
use session_pressure.Common.{
  List, ℕ, none, some, ◌∷◌, ◌≡◌, false, ltb, length, ◌&&◌, ◌≤◌, Bool, arith, [], ◌⊎◌, refl, inl,
  Bool-cases, inr, leb, not, ◌∙◌, true, Option, Distinct, sym, ap, subst,
}
use session_pressure.Ledger.Document.{Document, write}
use session_pressure.Ledger.Requests.Sequence.{
  override_waiters_ok, plan_ok, resolve_lem, pinned-pin, live_pins-Answered,
}
use session_pressure.Ledger.Transaction.Soundness.{with_state_ok, raise_schema_at_least}

-- The pins of a document.
abbrev pub pinned_in : Document → List ℕ
pinned_in d = elim d.override_operation [
  | none ↦ d.override_queue
  | some op ↦ op ∷ d.override_queue
]

-- A document of schema 5 or later keeps the pins, but for a tail that schema 8 brings.
write-pinned :
    (s : WorkState)
    → 5 ≤ s.schema_version
    → (8 ≤ s.schema_version) ⊎ (s.override_queue ≡ [])
    → pinned_in (write s) ≡ pinned s
unfolding write
write-pinned s five (inl eight) =
    let e₅ : leb 5 s.schema_version ≡ true = ground arith in
    let e₈ : leb 8 s.schema_version ≡ true = ground arith in rw (e₅, e₈) refl
write-pinned s five (inr empty) =
    let e₅ : leb 5 s.schema_version ≡ true = ground arith in
    elim (Bool-cases (leb 8 s.schema_version)) [
      | inl e ↦ rw (e₅, e) refl
      | inr e ↦ rw (e₅, e, empty) refl
    ]

raise_schema-pinned :
    (held : Bool) (s : WorkState)
    → (pinned (raise_schema held s) ≡ pinned s)
      × ((raise_schema held s).override_queue ≡ s.override_queue)
unfolding raise_schema
raise_schema-pinned held s = elim (Bool-cases (not held && ltb s.schema_version schema_current)) [
  | inl e ↦ rw e (refl, refl)
  | inr e ↦ rw e (refl, refl)
]

-- The schema that a request plans for is the one that is written.
raise_schema-persisted :
    (now : ℕ) (ops : List ℕ) (s : WorkState)
    → (raise_schema (is_legacy_pinned s) (pin now ops s)).schema_version
      ≡ persisted_work_state_schema s
unfolding raise_schema persisted_work_state_schema pin
raise_schema-persisted now [] s = ground arith
raise_schema-persisted now (op ∷ ops) s = ground arith

pin-schema :
    (now : ℕ) (ops : List ℕ) (s : WorkState) → (pin now ops s).schema_version ≡ s.schema_version
unfolding pin
pin-schema now [] s = refl
pin-schema now (op ∷ ops) s = refl

tail_fits :
    (version op : ℕ) (ops : List ℕ)
    → (ltb 1 (length (op ∷ ops)) && ltb version override_queue_minimum_schema) ≡ false
    → (8 ≤ version) ⊎ (ops ≡ [])
tail_fits version op [] h = inr refl
tail_fits version op (x ∷ ops) h = inl (ground arith)

-- A sequence of more than one pin is held only where the document can hold it.
write-pin :
    (now op : ℕ) (ops : List ℕ) (s : WorkState)
    → blocks s ≡ false
    → (ltb 1 (length (op ∷ ops))
        && ltb (persisted_work_state_schema s) override_queue_minimum_schema)
      ≡ false
    → pinned_in (write (raise_schema (is_legacy_pinned s) (pin now (op ∷ ops) s))) ≡ op ∷ ops
unfolding pin
write-pin now op ops s free held =
    let held_down = is_legacy_pinned s in
    let s' = pin now (op ∷ ops) s in
    let p = raise_schema-pinned held_down s' in
    let version = raise_schema-persisted now (op ∷ ops) s in
    let six = raise_schema_at_least held_down s' free in
    write-pinned (raise_schema held_down s') (omega (arith, six))
      (elim (tail_fits (persisted_work_state_schema s) op ops held) [
        | inl e ↦ inl (rw version e)
        | inr e ↦ inr (p.1 ∙ e)
      ])
    ∙ p.0
    ∙ pinned-pin now op ops s

length-map : (ws : List Waiter) → length (waiter_operations ws) ≡ length ws
length-map [] = refl
length-map (w ∷ ws) = omega (arith, length-map ws)

-- The state after a request that succeeds, and what its length was checked against.
override_operations_state :
    (c : Caller) (audited : ℕ → Bool) (op : ℕ) (ops : List ℕ) (s : WorkState) (ps : List Promotion)
    → Distinct (op ∷ ops)
    → (override_operations c audited (op ∷ ops) s).1 ≡ ok ps
    → ((override_operations c audited (op ∷ ops) s).0 ≡ pin c.now (op ∷ ops) s)
      × ((ltb 1 (length (op ∷ ops))
            && ltb (persisted_work_state_schema s) override_queue_minimum_schema)
          ≡ false)
unfolding override_operations request
override_operations_state c audited op ops s ps distinct e =
    let mutation = override_waiters c audited false false (op ∷ ops) s in
    let (same, done_ok) = checked_ok (check_request (op ∷ ops)) s mutation ps e in
    let (ws, moved, planned) = override_waiters_ok c audited false false (op ∷ ops) s ps done_ok in
    let (resolved, _, held) = plan_ok c audited false false (op ∷ ops) s ws ps planned in
    let (pins, answered) = resolve_lem s.waiters [] (op ∷ ops) ws resolved in
    let all_of_it : waiter_operations ws ≡ op ∷ ops =
      pins ∙ live_pins-Answered (waiter_operations s.waiters) (op ∷ ops) distinct answered in
    let size : length ws ≡ length (op ∷ ops) = sym (length-map ws) ∙ ap length all_of_it in
    (
      ap (λ m. m.0) same ∙ moved ∙ ap (λ l. pin c.now l s) all_of_it,
      subst
          (λ n.
            (ltb 1 n && ltb (persisted_work_state_schema s) override_queue_minimum_schema) ≡ false)
          size held,
    )

-- An operator's request for distinct operations that succeeds is in the state file: the pins of the
-- document are the operations of the request in its order, whatever the schema of the document was.
pub override_waiters_durable :
    (c : Caller) (h : Host) (writes : Bool) (d : Option Document) (audited : ℕ → Bool)
    (ops : List ℕ) (ps : List Promotion)
    → Distinct ops
    → (with_state c h writes d (override_operations c audited ops)).1 ≡ ok ps
    → (doc : Document) × ((with_state c h writes d (override_operations c audited ops)).0
        ≡ some doc)
      × (pinned_in doc ≡ ops)
unfolding override_operations
override_waiters_durable c h writes d audited [] ps distinct e =
    let (r, _, _, done_ok, _) =
      with_state_ok c h writes d (override_operations c audited []) ps e in
    cc
override_waiters_durable c h writes d audited (op ∷ ops) ps distinct e =
    let (r, _, free, done_ok, written) =
      with_state_ok c h writes d (override_operations c audited (op ∷ ops)) ps e in
    let (after, held) = override_operations_state c audited op ops r.state ps distinct done_ok in
    (_, written, rw after (write-pin c.now op ops r.state free held))
