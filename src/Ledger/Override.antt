-- ===== src/Ledger/Override.antt =====
-- The operator's promotion sequence: sessionpressure/workoverride.go.
pub mod Pins
use session_pressure.Common.{
  ℕ, Bool, List, ◌&&◌, if◌then◌else◌, ◌∷◌, not, [], is_empty, ltb, contains, true, is_some, ◌||◌,
  ◌==◌, false, none, some, same?,
}
use session_pressure.Ledger.{Waiter, WorkState, waiter_operations}

abbrev pub schema_current : ℕ
schema_current = 8

abbrev pub override_queue_minimum_schema : ℕ
override_queue_minimum_schema = 8

abbrev pub maximum_override_queue : ℕ
maximum_override_queue = 64

-- A legacy cohort still owns a lease or a queue place.
abbrev pub is_legacy_pinned : WorkState → Bool
is_legacy_pinned s = s.legacy_active && (not (is_empty s.leases) || not (is_empty s.waiters))

-- The schema that the state will be written at.
unfoldable pub persisted_work_state_schema : WorkState → ℕ
persisted_work_state_schema s =
    if not (is_legacy_pinned s) && ltb s.schema_version schema_current
    then schema_current
    else s.schema_version

-- The pinned operations, the active head first.
abbrev pub pinned : WorkState → List ℕ
pinned s = elim s.override_operation [ none ↦ s.override_queue | some op ↦ op ∷ s.override_queue ]

-- The pins that still have a waiter, each once, in order.
unfoldable pub live_pins : List ℕ → List ℕ → List ℕ → List ℕ
live_pins live seen [] = []
live_pins live seen (op ∷ ops) =
    let keep = not (contains op seen) && contains op live in
    let rest = live_pins live (if keep then op ∷ seen else seen) ops in
    if keep then op ∷ rest else rest

-- The still-queued pins; the n-th of them holds position n + 1.
unfoldable pub work_override_positions : WorkState → List ℕ
work_override_positions s = live_pins (waiter_operations s.waiters) [] (pinned s)

abbrev pub equal_lists : List ℕ → List ℕ → Bool
equal_lists [] [] = true
equal_lists (x ∷ xs) (y ∷ ys) = x == y && equal_lists xs ys
equal_lists _ _ = false

unfoldable pub advance_to : List ℕ → WorkState → ℕ → WorkState × Bool
advance_to [] s now =
    if not (is_some s.override_operation) && is_empty s.override_queue then (s, false) else (
      record s { override_operation = none; override_requested_at = none; override_queue = [] },
      true,
    )
advance_to (head ∷ tail) s now =
    if same? (some head) s.override_operation && equal_lists tail s.override_queue
    then (s, false)
    else (
      record s {
        override_operation = some head;
        override_requested_at =
            if same? (some head) s.override_operation then s.override_requested_at else some now;
        override_queue = tail;
      },
      true,
    )

-- Dead or acquired entries are dropped, and the next survivor inherits the head.
unfoldable pub advance_work_override : WorkState → ℕ → WorkState × Bool
unfolding advance_to
advance_work_override s now =
    if not (is_some s.override_operation) && is_empty s.override_queue
    then (s, false)
    else advance_to (work_override_positions s) s now
