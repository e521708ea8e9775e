-- ===== src/Events/Corrections.antt =====
-- What normalizeLateReconciliationTerminals of sessionpressure/workevent.go leaves.
use session_pressure.Events.{WorkEvent, same_type, expired}
use session_pressure.Events.Readers.{
  recovered_from, Expirations, normalize_terminals, recovered_operations, recovers, note,
  is_superseded, corrects,
}
use session_pressure.Common.{
  ℕ, List, ◌==◌, contains, ◌≡◌, false, true, none, [], arith, ◌∷◌, Bool-cases, keep_if, refl, ◌&&◌,
  inl, not, inr, clash, ◌∙◌, subst, ==→eq, sym, ap, is_empty,
}

==_flip : (a b : ℕ) → (a == b) ≡ false → (b == a) ≡ false
==_flip a b h = ground arith

abbrev Within : List ℕ → List ℕ → Type 0
Within later ops = (op : ℕ) → contains op later ≡ true → contains op ops ≡ true

recovered_rest :
    (x : Expirations) (e : WorkEvent) (rows : List WorkEvent)
    → same_type e.event expired ≡ false
    → (op : ℕ) → contains op (recovered_from x rows) ≡ true
    → contains op (recovered_from x (e ∷ rows)) ≡ true
unfolding recovered_from
recovered_rest x e rows n op h =
    elim (Bool-cases (recovers x e && not (contains e.operation_id (recovered_from x rows)))) [
      | inl b ↦ rw (n, b) (ground arith)
      | inr b ↦ rw (n, b) h
    ]

recovered_now :
    (x : Expirations) (e : WorkEvent) (rows : List WorkEvent)
    → same_type e.event expired ≡ false
    → recovers x e ≡ true
    → contains e.operation_id (recovered_from x (e ∷ rows)) ≡ true
unfolding recovered_from
recovered_now x e rows n h = elim (Bool-cases (contains e.operation_id (recovered_from x rows))) [
  | inl b ↦ rw (n, h, b) b
  | inr b ↦ rw (n, h, b) (ground arith)
]

recovers-none : (y : Expirations) (e : WorkEvent) → y e.operation_id ≡ none → recovers y e ≡ false
recovers-none y e h = ap (λ o. corrects o e) h

recovers_same :
    (x y : Expirations) (e : WorkEvent)
    → y e.operation_id ≡ x e.operation_id
    → recovers y e ≡ recovers x e
recovers_same x y e h = ap (λ o. corrects o e) h

-- A row that is not an expiration finds no expiration that it corrects among the kept rows.
not_recovered :
    (ops : List ℕ) (x y : Expirations) (e : WorkEvent) (rows : List WorkEvent)
    → ((op : ℕ) → contains op ops ≡ true → y op ≡ none)
    → ((op : ℕ) → contains op ops ≡ false → y op ≡ x op)
    → Within (recovered_from x (e ∷ rows)) ops
    → same_type e.event expired ≡ false
    → recovers y e ≡ false
not_recovered ops x y e rows gone kept w n = elim (Bool-cases (contains e.operation_id ops)) [
  | inl c ↦ recovers-none y e (gone e.operation_id c)
  | inr c ↦ elim (Bool-cases (recovers x e)) [
    | inl b ↦
        absurd
          (clash (contains e.operation_id ops) (w e.operation_id (recovered_now x e rows n b)) c)
    | inr b ↦ recovers_same x y e (kept e.operation_id c) ∙ b
  ]
]

note_other :
    (x : Expirations) (e : WorkEvent) (op : ℕ) → (op == e.operation_id) ≡ false → note x e op ≡ x op
note_other x e op h = rw h refl

note_both : (x y : Expirations) (e : WorkEvent) (op : ℕ) → y op ≡ x op → note y e op ≡ note x e op
note_both x y e op h = elim (Bool-cases (op == e.operation_id)) [
  | inl b ↦ rw b refl
  | inr b ↦ rw (b, h) refl
]

apart : (a b : ℕ) (ops : List ℕ) → contains b ops ≡ true → contains a ops ≡ false → (a == b) ≡ false
apart a b ops hb ha = elim (Bool-cases (a == b)) [
  | inl e ↦
      absurd
        (clash (contains b ops) hb (subst (λ (o : ℕ). contains o ops ≡ false) (==→eq a b e) ha))
  | inr e ↦ e
]

noted :
    (x : Expirations) (e : WorkEvent) (rows : List WorkEvent)
    → same_type e.event expired ≡ true
    → recovered_from x (e ∷ rows) ≡ recovered_from (note x e) rows
unfolding recovered_from
noted x e rows h = rw h refl

passed :
    (x : Expirations) (e : WorkEvent) (rows : List WorkEvent)
    → same_type e.event expired ≡ false
    → recovers x e ≡ false
    → recovered_from x (e ∷ rows) ≡ recovered_from x rows
unfolding recovered_from
passed x e rows h h' = rw (h, h') refl

abbrev kept_of : List ℕ → List WorkEvent → List WorkEvent
kept_of ops rows = keep_if (λ e. not (is_superseded ops e)) rows

dropped :
    (ops : List ℕ) (e : WorkEvent) (rows : List WorkEvent)
    → is_superseded ops e ≡ true
    → kept_of ops (e ∷ rows) ≡ kept_of ops rows
dropped ops e rows h = rw h refl

stays :
    (ops : List ℕ) (e : WorkEvent) (rows : List WorkEvent)
    → is_superseded ops e ≡ false
    → kept_of ops (e ∷ rows) ≡ e ∷ kept_of ops rows
stays ops e rows h = rw h refl

recovered_from-kept :
    (ops : List ℕ) (x y : Expirations) (rows : List WorkEvent)
    → ((op : ℕ) → contains op ops ≡ true → y op ≡ none)
    → ((op : ℕ) → contains op ops ≡ false → y op ≡ x op)
    → Within (recovered_from x rows) ops
    → recovered_from y (kept_of ops rows) ≡ []
unfolding recovered_from
recovered_from-kept ops x y [] gone kept w = refl
recovered_from-kept ops x y (e ∷ rows) gone kept w = elim (Bool-cases (same_type e.event expired)) [
  | inl n ↦
      let w' : Within (recovered_from (note x e) rows) ops =
        λ op h. w op (subst (λ (l : List ℕ). contains op l ≡ true) (sym (noted x e rows n)) h) in
      elim (Bool-cases (contains e.operation_id ops)) [
        | inl c ↦
            let kept' : (op : ℕ) → contains op ops ≡ false → y op ≡ note x e op =
              λ op h. kept op h ∙ sym (note_other x e op (apart op e.operation_id ops c h)) in
            ap (recovered_from y) (dropped ops e rows (rw (n, c) refl))
            ∙ recovered_from-kept ops (note x e) y rows gone kept' w'
        | inr c ↦
            let gone' : (op : ℕ) → contains op ops ≡ true → note y e op ≡ none = λ op h.
              note_other y e op (==_flip e.operation_id op (apart e.operation_id op ops h c))
              ∙ gone op h in
            let kept' : (op : ℕ) → contains op ops ≡ false → note y e op ≡ note x e op =
              λ op h. note_both x y e op (kept op h) in
            ap (recovered_from y) (stays ops e rows (rw (n, c) refl))
            ∙ noted y e (kept_of ops rows) n
            ∙ recovered_from-kept ops (note x e) (note y e) rows gone' kept' w'
      ]
  | inr n ↦
      let none_new = not_recovered ops x y e rows gone kept w n in
      let w' : Within (recovered_from x rows) ops = λ op h. w op (recovered_rest x e rows n op h) in
      ap (recovered_from y) (stays ops e rows (rw n refl))
      ∙ passed y e (kept_of ops rows) n none_new
      ∙ recovered_from-kept ops x y rows gone kept w'
]

is_empty-nil : (xs : List ℕ) → is_empty xs ≡ true → xs ≡ []
is_empty-nil [] h = refl
is_empty-nil (x ∷ xs) h = absurd (clash true refl (sym h))

unchanged :
    (rows : List WorkEvent) → recovered_operations rows ≡ [] → normalize_terminals rows ≡ (rows, 0)
unfolding normalize_terminals
unchanged rows h = rw h refl

kept_of_none : (rows : List WorkEvent) → kept_of [] rows ≡ rows
kept_of_none [] = refl
kept_of_none (e ∷ rows) = elim (Bool-cases (same_type e.event expired)) [
  | inl n ↦ stays [] e rows (rw n refl) ∙ ap (λ r. e ∷ r) (kept_of_none rows)
  | inr n ↦ stays [] e rows (rw n refl) ∙ ap (λ r. e ∷ r) (kept_of_none rows)
]

normalize_terminals-kept_of :
    (rows : List WorkEvent)
    → (normalize_terminals rows).0 ≡ kept_of (recovered_operations rows) rows
unfolding normalize_terminals
normalize_terminals-kept_of rows = elim (Bool-cases (is_empty (recovered_operations rows))) [
  | inl h ↦
      let q = is_empty-nil (recovered_operations rows) h in
      ap (λ p. p.0) (unchanged rows q)
      ∙ sym (kept_of_none rows)
      ∙ ap (λ (ops : List ℕ). kept_of ops rows) (sym q)
  | inr h ↦ rw h refl
]

-- A second normalization changes nothing and recovers nothing: no kept row is a late real outcome
-- after a kept expiration of its operation.
pub normalize_terminals_twice :
    (rows : List WorkEvent)
    → let kept = (normalize_terminals rows).0 in
      (recovered_operations kept ≡ []) × (normalize_terminals kept ≡ (kept, 0))
unfolding normalize_terminals
normalize_terminals_twice rows =
    let ops = recovered_operations rows in
    let none_left =
      recovered_from-kept ops (λ op. none) (λ op. none) rows (λ op h. refl) (λ op h. refl)
        (λ op h. h) in
    let q : recovered_operations (normalize_terminals rows).0 ≡ [] =
      ap recovered_operations (normalize_terminals-kept_of rows) ∙ none_left in
    (q, unchanged (normalize_terminals rows).0 q)
