-- ===== src/Waits/Shares.antt =====
-- No wait is lost between the causes of sessionpressure/workwaitattribution.go.
use session_pressure.Common.{
  ℕ, List, sum_of, ◌≡◌, if◌then◌else◌, ◌∷◌, ◌+◌, keep_if, map, max, arith, ap, Bool-cases, [], ◌∙◌,
  sum_of-sort_by, refl, inl, inr,
}
use session_pressure.Waits.{
  causes, WaitCause, Parts, by_cause, known_parts, WaitOperation, CauseRow, parts_total, wait_of,
  cause_row, same_cause, all_causes, has_wait, cause_other, is_overhead, pressure_cpu, cause_before,
  pressure_memory, wait_total, pressure_other, pressure_storage, pressure_swap, queue_capacity,
  queue_fairness, queue_other, queue_reservation, singleflight,
}
use session_pressure.Waits.LongWaits.{total_wait}

-- An operation's parts sum to its recorded wait, or to what its rows name, whichever is larger.
pub causes_total :
    (o : WaitOperation)
    → parts_total (causes o)
      ≡ max o.total_ms (o.queue_ms + o.admission_ms + o.pressure_ms + o.flight_ms)
unfolding causes known_parts
causes_total o = elim (Bool-cases (is_overhead o)) [
  | inl b ↦ rw b (omega arith)
  | inr b ↦ rw b (omega arith)
]

one_entry : (c : WaitCause) (n : ℕ) → sum_of (λ d. if same_cause c d then n else 0) all_causes ≡ n
one_entry cause_other n = omega arith
one_entry pressure_cpu n = omega arith
one_entry pressure_memory n = omega arith
one_entry pressure_other n = omega arith
one_entry pressure_storage n = omega arith
one_entry pressure_swap n = omega arith
one_entry queue_capacity n = omega arith
one_entry queue_fairness n = omega arith
one_entry queue_other n = omega arith
one_entry queue_reservation n = omega arith
one_entry singleflight n = omega arith

sum_of-cong :
    {A : Type 0} (f g : A → ℕ) (xs : List A) → ((x : A) → f x ≡ g x) → sum_of f xs ≡ sum_of g xs
sum_of-cong f g [] h = refl
sum_of-cong f g (x ∷ xs) h = omega (arith, h x, sum_of-cong f g xs h)

sum_of_zero : {A : Type 0} (xs : List A) → sum_of (λ x. 0) xs ≡ 0
sum_of_zero [] = refl
sum_of_zero (x ∷ xs) = omega (arith, sum_of_zero xs)

-- Sums exchange with pointwise addition.
sum_of-plus :
    {A : Type 0} (f g : A → ℕ) (xs : List A)
    → sum_of (λ x. f x + g x) xs ≡ sum_of f xs + sum_of g xs
sum_of-plus f g [] = refl
sum_of-plus f g (x ∷ xs) = omega (arith, sum_of-plus f g xs)

-- The entries of a split sum to its total.
entries_total : (ps : Parts) → sum_of (λ c. wait_of c ps) all_causes ≡ parts_total ps
entries_total [] = sum_of_zero all_causes
entries_total (p ∷ ps) =
    sum_of-plus (λ c. if same_cause p.0 c then p.1 else 0) (λ c. wait_of c ps) all_causes
    ∙ (omega (arith, one_entry p.0 p.1, entries_total ps))

rows_total :
    (os : List WaitOperation) → sum_of (λ c. (cause_row os c).wait) all_causes ≡ total_wait os
rows_total [] = sum_of_zero all_causes
rows_total (o ∷ os) =
    sum_of-plus (λ c. wait_of c (causes o)) (λ c. (cause_row os c).wait) all_causes
    ∙ (omega (arith, entries_total (causes o), rows_total os))

kept_wait :
    (rs : List CauseRow) → sum_of (λ r. r.wait) (keep_if has_wait rs) ≡ sum_of (λ r. r.wait) rs
kept_wait [] = refl
kept_wait (r ∷ rs) = ground (arith, kept_wait rs)

sum_of-map :
    {A B : Type 0} (f : B → ℕ) (g : A → B) (xs : List A)
    → sum_of f (map g xs) ≡ sum_of (λ x. f (g x)) xs
sum_of-map f g [] = refl
sum_of-map f g (x ∷ xs) = ap (λ n. f (g x) + n) (sum_of-map f g xs)

-- The waits of all causes together are the waits of all operations, and of each operation that is the
-- larger of its recorded wait and the sum of its waits for the queue, the admission, the pressure
-- gate and another's result.
pub by_cause_total :
    (os : List WaitOperation)
    → (sum_of (λ r. r.wait) (by_cause os) ≡ total_wait os)
      × (total_wait os
          ≡ sum_of
              (λ o. max o.total_ms (o.queue_ms + o.admission_ms + o.pressure_ms + o.flight_ms))
              os)
unfolding by_cause
by_cause_total os =
    let rows = map (cause_row os) all_causes in
    (
      sum_of-sort_by cause_before (λ (r : CauseRow). r.wait) (keep_if has_wait rows)
          ∙ kept_wait rows
          ∙ sum_of-map (λ (r : CauseRow). r.wait) (cause_row os) all_causes
          ∙ rows_total os,
      sum_of-cong wait_total
          (λ o. max o.total_ms (o.queue_ms + o.admission_ms + o.pressure_ms + o.flight_ms)) os
          causes_total,
    )
