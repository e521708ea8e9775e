-- ===== src/Events/Independence.antt =====
-- The readers of sessionpressure/workevent.go judge each operation by its own rows alone.
use session_pressure.Events.{WorkEvent}
use session_pressure.Common.{
  Option, ℕ, Bool, List, ◌≡◌, keep_if, ◌==◌, true, ◌⊎◌, ◌∷◌, false, some, inl, arith, ==_refl, ap,
  Bool-cases, refl, inr, ==→eq, [], ◌∙◌, not, subst, is_some, if◌then◌else◌, sym, none, clash,
}
use session_pressure.Events.Lifecycle.{
  ◌>>=◌, Outcome, add, Validator, LifecycleError, Lifecycle, refused, accepted, follow, store,
  current, new_validator,
}
use session_pressure.Events.Readers.{
  partition_from, Failures, has_failed, add_all, validate_lifecycle, partition_lifecycle, error_of,
}

abbrev pub is_refused : {A : Type 0} → Outcome A → Bool
is_refused (refused e) = true
is_refused (accepted a) = false

pub Outcome-cases :
    {A : Type 0} (m : Outcome A)
    → ((e : LifecycleError) × (m ≡ refused e)) ⊎ ((a : A) × (m ≡ accepted a))
Outcome-cases (refused e) = inl (e, refl)
Outcome-cases (accepted a) = inr (a, refl)

-- The rows of one operation, followed in a row.
unfoldable pub follow_all : Option Lifecycle → List WorkEvent → Outcome (Option Lifecycle)
follow_all s [] = accepted s
follow_all s (e ∷ rows) = do s' ← follow (current s e) e; follow_all (some s') rows

abbrev pub rows_of : ℕ → List WorkEvent → List WorkEvent
rows_of op rows = keep_if (λ e. e.operation_id == op) rows

follow_nothing : (o : Option Lifecycle) → is_refused (follow_all o []) ≡ false
unfolding follow_all
follow_nothing o = refl

add-refused :
    (v : Validator) (e : WorkEvent) (error : LifecycleError)
    → follow (current (v e.operation_id) e) e ≡ refused error
    → add v e ≡ refused error
unfolding add
add-refused v e error h = rw h refl

add-accepted :
    (v : Validator) (e : WorkEvent) (s : Lifecycle)
    → follow (current (v e.operation_id) e) e ≡ accepted s
    → add v e ≡ accepted (store v e.operation_id s)
unfolding add
add-accepted v e s h = rw h refl

store_other :
    (v : Validator) (op other : ℕ) (s : Lifecycle)
    → (op == other) ≡ false
    → store v op s other ≡ v other
store_other v op other s h = let h' : (other == op) ≡ false = ground arith in rw h' refl

store_same : (v : Validator) (op : ℕ) (s : Lifecycle) → store v op s op ≡ some s
store_same v op s = rw (==_refl op) refl

has_failed_more :
    (op other : ℕ) (error : LifecycleError) (fs : Failures)
    → (other == op) ≡ false
    → has_failed op ((other, error) ∷ fs) ≡ has_failed op fs
has_failed_more op other error fs h = ground arith

has_failed_now :
    (op other : ℕ) (error : LifecycleError) (fs : Failures)
    → (other == op) ≡ true
    → has_failed op ((other, error) ∷ fs) ≡ true
has_failed_now op other error fs h = ground arith

has_failed-eq :
    (op other : ℕ) (fs : Failures) → (other == op) ≡ true → has_failed other fs ≡ has_failed op fs
has_failed-eq op other fs h = ap (λ o. has_failed o fs) (==→eq other op h)

has_failed_stays :
    (op : ℕ) (v : Validator) (fs : Failures) (rows : List WorkEvent)
    → has_failed op fs ≡ true
    → has_failed op (partition_from v fs rows) ≡ true
unfolding partition_from
has_failed_stays op v fs [] h = h
has_failed_stays op v fs (e ∷ rows) h = elim (Bool-cases (has_failed e.operation_id fs)) [
  | inl b ↦ rw b (has_failed_stays op v fs rows h)
  | inr b ↦ elim (Outcome-cases (add v e)) [
    | inl (error, r) ↦
        rw (b, r) (has_failed_stays op v ((e.operation_id, error) ∷ fs) rows (ground arith))
    | inr (v', a) ↦ rw (b, a) (has_failed_stays op v' fs rows h)
  ]
]

-- What the partition says of an operation is what its own rows say.
pub partition_from-follow_all :
    (op : ℕ) (v : Validator) (fs : Failures) (rows : List WorkEvent)
    → has_failed op fs ≡ false
    → has_failed op (partition_from v fs rows) ≡ is_refused (follow_all (v op) (rows_of op rows))
unfolding partition_from follow_all
partition_from-follow_all op v fs [] h = h
partition_from-follow_all op v fs (e ∷ rows) h = elim (Bool-cases (e.operation_id == op)) [
  | inl same ↦
      let q = ==→eq e.operation_id op same in
      let fresh : has_failed e.operation_id fs ≡ false =
        has_failed-eq op e.operation_id fs same ∙ h in
      elim (Outcome-cases (follow (current (v e.operation_id) e) e)) [
        | inl (error, r) ↦
            let r' = subst (λ (o : ℕ). follow (current (v o) e) e ≡ refused error) q r in
            rw (same, fresh, add-refused v e error r, r')
              (has_failed_stays op v ((e.operation_id, error) ∷ fs) rows
                (has_failed_now op e.operation_id error fs same))
        | inr (s, a) ↦
            let a' = subst (λ (o : ℕ). follow (current (v o) e) e ≡ accepted s) q a in
            let v' = store v e.operation_id s in
            let at : v' op ≡ some s =
              subst (λ (o : ℕ). v' o ≡ some s) q (store_same v e.operation_id s) in
            rw (same, fresh, add-accepted v e s a, a', sym at)
              (partition_from-follow_all op v' fs rows h)
      ]
  | inr other ↦ elim (Bool-cases (has_failed e.operation_id fs)) [
    | inl gone ↦ rw (other, gone) (partition_from-follow_all op v fs rows h)
    | inr stays ↦ elim (Outcome-cases (follow (current (v e.operation_id) e) e)) [
      | inl (error, r) ↦
          rw (other, stays, add-refused v e error r)
            (partition_from-follow_all op v ((e.operation_id, error) ∷ fs) rows
              (has_failed_more op e.operation_id error fs other ∙ h))
      | inr (s, a) ↦
          rw (other, stays, add-accepted v e s a, sym (store_other v e.operation_id op s other))
            (partition_from-follow_all op (store v e.operation_id s) fs rows h)
    ]
  ]
]

-- One row of an operation was followed, and the rest of its rows with it.
pub follow_all_first :
    (o : Option Lifecycle) (e : WorkEvent) (rows : List WorkEvent)
    → is_refused (follow_all o (e ∷ rows)) ≡ false
    → (s : Lifecycle) × (follow (current o e) e ≡ accepted s)
      × (is_refused (follow_all (some s) rows) ≡ false)
unfolding follow_all
follow_all_first o e rows h = elim (Outcome-cases (follow (current o e) e)) [
  | inl (error, r) ↦ absurd (clash (is_refused (follow_all o (e ∷ rows))) (rw r refl) h)
  | inr (s, a) ↦ (s, a, (rw a at h))
]

own_rows :
    (e : WorkEvent) (rows : List WorkEvent)
    → rows_of e.operation_id (e ∷ rows) ≡ e ∷ rows_of e.operation_id rows
own_rows e rows = rw (==_refl e.operation_id) refl

other_rows :
    (op : ℕ) (e : WorkEvent) (rows : List WorkEvent)
    → (e.operation_id == op) ≡ false
    → rows_of op (e ∷ rows) ≡ rows_of op rows
other_rows op e rows h = rw h refl

-- All rows pass if those of each operation do.
add_all_passes :
    (v : Validator) (rows : List WorkEvent)
    → ((op : ℕ) → is_refused (follow_all (v op) (rows_of op rows)) ≡ false)
    → is_refused (add_all v rows) ≡ false
unfolding add_all
add_all_passes v [] h = refl
add_all_passes v (e ∷ rows) h =
    let own =
      subst (λ (r : List WorkEvent). is_refused (follow_all (v e.operation_id) r) ≡ false)
        (own_rows e rows) (h e.operation_id) in
    let (s, a, rest) = follow_all_first (v e.operation_id) e (rows_of e.operation_id rows) own in
    let later : (op : ℕ)
        → is_refused (follow_all (store v e.operation_id s op) (rows_of op rows)) ≡ false =
      λ op. elim (Bool-cases (e.operation_id == op)) [
        | inl same ↦
            subst
              (λ (o : ℕ).
                is_refused (follow_all (store v e.operation_id s o) (rows_of o rows)) ≡ false)
              (==→eq e.operation_id op same) (rw (store_same v e.operation_id s) rest)
        | inr other ↦
            rw (store_other v e.operation_id op s other, sym (other_rows op e rows other)) (h op)
      ] in
    rw (add-accepted v e s a) (add_all_passes (store v e.operation_id s) rows later)

-- If all rows pass, those of each operation do.
add_all_follows :
    (op : ℕ) (v : Validator) (rows : List WorkEvent)
    → is_refused (add_all v rows) ≡ false
    → is_refused (follow_all (v op) (rows_of op rows)) ≡ false
unfolding add_all follow_all
add_all_follows op v [] h = refl
add_all_follows op v (e ∷ rows) h = elim (Outcome-cases (follow (current (v e.operation_id) e) e)) [
  | inl (error, r) ↦
      absurd (clash (is_refused (add_all v (e ∷ rows))) (rw (add-refused v e error r) refl) h)
  | inr (s, a) ↦
      let v' = store v e.operation_id s in
      let rest = add_all_follows op v' rows (rw (add-accepted v e s a) at h) in
      elim (Bool-cases (e.operation_id == op)) [
        | inl same ↦
            let q = ==→eq e.operation_id op same in
            let a' = subst (λ (o : ℕ). follow (current (v o) e) e ≡ accepted s) q a in
            let there : v' op ≡ some s =
              subst (λ (o : ℕ). v' o ≡ some s) q (store_same v e.operation_id s) in
            rw (same, a', sym there) rest
        | inr other ↦ rw (other, sym (store_other v e.operation_id op s other)) rest
      ]
]

-- The rows of one operation pass alone exactly if it follows them.
add_all-follow_all :
    (op : ℕ) (v : Validator) (rows : List WorkEvent)
    → is_refused (follow_all (v op) (rows_of op rows)) ≡ is_refused (add_all v (rows_of op rows))
unfolding add_all follow_all
add_all-follow_all op v [] = refl
add_all-follow_all op v (e ∷ rows) = elim (Bool-cases (e.operation_id == op)) [
  | inl same ↦
      let q = ==→eq e.operation_id op same in
      elim (Outcome-cases (follow (current (v e.operation_id) e) e)) [
        | inl (error, r) ↦
            let r' = subst (λ (o : ℕ). follow (current (v o) e) e ≡ refused error) q r in
            rw (same, add-refused v e error r, r') refl
        | inr (s, a) ↦
            let a' = subst (λ (o : ℕ). follow (current (v o) e) e ≡ accepted s) q a in
            let v' = store v e.operation_id s in
            let at : v' op ≡ some s =
              subst (λ (o : ℕ). v' o ≡ some s) q (store_same v e.operation_id s) in
            rw (same, add-accepted v e s a, a', sym at) (add_all-follow_all op v' rows)
      ]
  | inr other ↦ rw other (add_all-follow_all op v rows)
]

is_some-error_of : (m : Outcome Validator) → is_some (error_of m) ≡ is_refused m
is_some-error_of (refused e) = refl
is_some-error_of (accepted v) = refl

validate_lifecycle-add_all :
    (rows : List WorkEvent)
    → is_some (validate_lifecycle rows) ≡ is_refused (add_all new_validator rows)
unfolding validate_lifecycle
validate_lifecycle-add_all rows = is_some-error_of (add_all new_validator rows)

-- The rows of an operation that was not dropped are all kept; those of another are all gone.
kept_rows :
    (op : ℕ) (fs : Failures) (rows : List WorkEvent)
    → rows_of op (keep_if (λ e. not (has_failed e.operation_id fs)) rows)
      ≡ (if has_failed op fs then [] else rows_of op rows)
kept_rows op fs [] = elim (Bool-cases (has_failed op fs)) [ inl h ↦ rw h refl | inr h ↦ rw h refl ]
kept_rows op fs (e ∷ rows) = elim (Bool-cases (e.operation_id == op)) [
  | inl same ↦ elim (Bool-cases (has_failed op fs)) [
    | inl h ↦
        rw (has_failed-eq op e.operation_id fs same ∙ h, h) (kept_rows op fs rows ∙ (rw h refl))
    | inr h ↦
        rw (has_failed-eq op e.operation_id fs same ∙ h, same, h)
          (ap (λ r. e ∷ r) (kept_rows op fs rows ∙ (rw h refl)))
  ]
  | inr other ↦ elim (Bool-cases (has_failed e.operation_id fs)) [
    | inl gone ↦ rw (gone, other) (kept_rows op fs rows)
    | inr stays ↦ rw (stays, other) (kept_rows op fs rows)
  ]
]

-- An operation is dropped exactly if its own rows, read alone, fail the validation; and the rows of
-- all operations that are kept pass the validation together, in their order.
pub partition_lifecycle_independent :
    (rows : List WorkEvent)
    → let fs = partition_lifecycle rows in
      ((op : ℕ) → has_failed op fs ≡ is_some (validate_lifecycle (rows_of op rows)))
      × (is_some (validate_lifecycle (keep_if (λ e. not (has_failed e.operation_id fs)) rows))
          ≡ false)
unfolding partition_lifecycle
partition_lifecycle_independent rows =
    let fs = partition_from new_validator [] rows in
    let kept = keep_if (λ e. not (has_failed e.operation_id fs)) rows in
    let alone : (op : ℕ) → has_failed op fs ≡ is_refused (follow_all none (rows_of op rows)) =
      λ op. partition_from-follow_all op new_validator [] rows refl in
    let passes : (op : ℕ) → is_refused (follow_all none (rows_of op kept)) ≡ false = λ op.
      elim (Bool-cases (has_failed op fs)) [
        | inl h ↦ rw (kept_rows op fs rows, h) (follow_nothing none)
        | inr h ↦ rw (kept_rows op fs rows, h) (sym (alone op) ∙ h)
      ] in
    (
      λ op.
          alone op
          ∙ add_all-follow_all op new_validator rows
          ∙ sym (validate_lifecycle-add_all (rows_of op rows)),
      validate_lifecycle-add_all kept ∙ add_all_passes new_validator kept passes,
    )

-- A history that passes leaves no operation refused.
pub all_follow :
    (rows : List WorkEvent) (op : ℕ)
    → validate_lifecycle rows ≡ none
    → is_refused (follow_all none (rows_of op rows)) ≡ false
all_follow rows op h =
    add_all_follows op new_validator rows (sym (validate_lifecycle-add_all rows) ∙ ap is_some h)
