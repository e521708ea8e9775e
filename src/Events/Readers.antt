-- ===== src/Events/Readers.antt =====
-- The readers of histories of audit rows: validateWorkEventLifecycle, partitionWorkEventLifecycle and
-- normalizeLateReconciliationTerminals of sessionpressure/workevent.go.
use session_pressure.Events.{WorkEvent, expired, same_type}
use session_pressure.Common.{
  Bool, ℕ, Option, List, ◌&&◌, not, false, none, some, [], ◌∷◌, ◌==◌, if◌then◌else◌, contains, map,
  keep_if, length, is_empty,
}
use session_pressure.Events.Lifecycle.{
  LifecycleError, Outcome, Validator, accepted, add, is_late_terminal, new_validator, refused,
  ◌>>=◌,
}

unfoldable pub add_all : Validator → List WorkEvent → Outcome Validator
add_all v [] = accepted v
add_all v (e ∷ rows) = do v' ← add v e; add_all v' rows

abbrev pub error_of : Outcome Validator → Option LifecycleError
error_of (refused e) = some e
error_of (accepted v) = none

unfoldable pub validate_lifecycle : List WorkEvent → Option LifecycleError
validate_lifecycle rows = error_of (add_all new_validator rows)

-- The operations that failed, with the error of each, the last one first.
abbrev pub Failures : Type 0
Failures = List (ℕ × LifecycleError)

abbrev pub has_failed : ℕ → Failures → Bool
has_failed op fs = contains op (map (λ f. f.0) fs)

unfoldable pub partition_from : Validator → Failures → List WorkEvent → Failures
partition_from v fs [] = fs
partition_from v fs (e ∷ rows) =
    if has_failed e.operation_id fs then partition_from v fs rows else elim (add v e) [
      | refused error ↦ partition_from v ((e.operation_id, error) ∷ fs) rows
      | accepted v' ↦ partition_from v' fs rows
    ]

unfoldable pub partition_lifecycle : List WorkEvent → Failures
partition_lifecycle rows = partition_from new_validator [] rows

-- The counts of the diagnostics.
abbrev pub skipped_operations : List WorkEvent → ℕ
skipped_operations rows = length (partition_lifecycle rows)

abbrev pub skipped_events : List WorkEvent → ℕ
skipped_events rows =
    let fs = partition_lifecycle rows in length (keep_if (λ e. has_failed e.operation_id fs) rows)

-- The last expiration of each operation so far.
abbrev pub Expirations : Type 0
Expirations = ℕ → Option WorkEvent

abbrev pub note : Expirations → WorkEvent → Expirations
note x e other = if other == e.operation_id then some e else x other

abbrev pub corrects : Option WorkEvent → WorkEvent → Bool
corrects none e = false
corrects (some gone) e = is_late_terminal gone e

abbrev pub recovers : Expirations → WorkEvent → Bool
recovers x e = corrects (x e.operation_id) e

-- The operations whose real outcome came after their expiration.
unfoldable pub recovered_from : Expirations → List WorkEvent → List ℕ
recovered_from x [] = []
recovered_from x (e ∷ rows) =
    if same_type e.event expired
    then recovered_from (note x e) rows
    else let later = recovered_from x rows in
      if recovers x e && not (contains e.operation_id later) then e.operation_id ∷ later else later

abbrev pub recovered_operations : List WorkEvent → List ℕ
recovered_operations rows = recovered_from (λ op. none) rows

-- An expiration of an operation that is among the recovered ones.
abbrev pub is_superseded : List ℕ → WorkEvent → Bool
is_superseded ops e = same_type e.event expired && contains e.operation_id ops

unfoldable pub normalize_terminals : List WorkEvent → List WorkEvent × ℕ
normalize_terminals rows =
    let ops = recovered_operations rows in
    if is_empty ops then (rows, 0) else (keep_if (λ e. not (is_superseded ops e)) rows, length ops)
