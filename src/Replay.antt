-- ===== src/Replay.antt =====
-- The scheduling replay of recorded work: replayPolicy of sessionpressure/workreplay.go.
--
-- Jobs arrive at the times that were recorded and run for the times that were recorded; only the
-- order of their starts is decided anew. A replay keeps its own clock. The outer loop runs on fuel;
-- three rounds per job are enough. The summary by class is left out: the waits are kept as they are.
pub mod Clock
pub mod Loop
pub mod Comparison
pub mod Trace
pub mod Completion
pub mod Fits
pub mod Gates
pub mod Accounts
pub mod Progress
pub mod Frames
use session_pressure.Common.{
  ℕ, Bool, Option, List, none, some, [], ◌∷◌, true, false, zero, suc, ◌+◌, ◌-◌, ◌*◌, ◌/◌, max, map,
  take, ◌++◌, ◌&&◌, ◌||◌, leb, ltb, ◌==◌, if◌then◌else◌, is_some, is_empty, length, keep_if, sum_of,
  update_at,
}
use session_pressure.Limits.{WorkClass}
use session_pressure.Ledger.{Waiter, unreserved}
use session_pressure.Ledger.Select.{
  select_work_waiter, work_waiter_protection, closed_window, selector_scan_limit, maximum_bypasses,
}

pub record Job : Type 0 where
  pub id : ℕ
  pub class : WorkClass
  pub weight : ℕ
  pub queued_at : ℕ
  pub runtime : ℕ
  pub bypasses : ℕ
  pub last_bypassed_at : Option ℕ
  pub protected_at : Option ℕ

pub record Running : Type 0 where
  pub job : Job
  pub finish_at : ℕ

pub data ReplayMode : Type 0 where
  replay_fifo replay_candidate replay_feasible_floor : ReplayMode

-- The counts of WorkReplayPolicyMetrics, and the wait of each job that started.
pub record Tally : Type 0 where
  pub contention_decisions : ℕ
  pub short_runtime_long_wait : ℕ
  pub maximum_seen : ℕ
  pub capacity_violations : ℕ
  pub protected_violations : ℕ
  pub waits : List (WorkClass × ℕ)

-- The variables of the loop; `arrivals` is what `next` has not passed.
pub record Sim : Type 0 where
  pub queue : List Job
  pub running : List Running
  pub used : ℕ
  pub arrivals : List Job
  pub now : ℕ
  pub tally : Tally

abbrev pub as_waiter : Job → Waiter
as_waiter j = record {
  operation_id = j.id;
  class = j.class;
  weight = j.weight;
  pid = 0;
  owner_identity = 0;
  queued_at = j.queued_at;
  heartbeat_at = 0;
  origin = record { kind = ""; schedule_id = ""; schedule_run_id = ""; agent_kind = "" };
  bypass_count = j.bypasses;
  last_bypassed_at = j.last_bypassed_at;
  protected_at = j.protected_at;
  reservation_kind = unreserved;
  reserved_at = none;
}

-- What one round of the inner loop selects, by its place in the queue, and whom it passes.
pub record Choice : Type 0 where
  pub place : Option ℕ
  pub passed : List ℕ

abbrev pub next_place : Option ℕ → Option ℕ
next_place none = none
next_place (some i) = some (i + 1)

unfoldable pub place_of : ℕ → List Job → Option ℕ
place_of op [] = none
place_of op (j ∷ js) = let later = place_of op js in if j.id == op then some 0 else next_place later

unfoldable pub place_fitting : ℕ → ℕ → List Job → Option ℕ
place_fitting used capacity [] = none
place_fitting used capacity (j ∷ js) =
    let later = place_fitting used capacity js in
    if leb (j.weight + used) capacity then some 0 else next_place later

abbrev pub place_selected : Option ℕ → List Job → Option ℕ
place_selected none js = none
place_selected (some op) js = place_of op js

unfoldable pub choose_place : ReplayMode → ℕ → Sim → Choice
unfolding place_of place_fitting
choose_place replay_candidate capacity s =
    let d = select_work_waiter (map as_waiter s.queue) s.used capacity s.now closed_window 0 in
    record { place = place_selected d.selected s.queue; passed = d.bypassed }
choose_place replay_feasible_floor capacity s = record {
  place = place_fitting s.used capacity (take selector_scan_limit s.queue);
  passed = [];
}
choose_place replay_fifo capacity s = record {
  place = place_fitting s.used capacity (take 1 s.queue);
  passed = [];
}

abbrev pub job_at : ℕ → List Job → Option Job
job_at i [] = none
job_at zero (j ∷ js) = some j
job_at (suc i) (j ∷ js) = job_at i js

abbrev pub drop_at : ℕ → List Job → List Job
drop_at i [] = []
drop_at zero (j ∷ js) = js
drop_at (suc i) (j ∷ js) = j ∷ drop_at i js

-- A job that was passed over once more.
abbrev pub charge_job : ℕ → Job → Job
charge_job now j = record j {
  bypasses = j.bypasses + 1;
  last_bypassed_at = if is_some j.last_bypassed_at then j.last_bypassed_at else some now;
  protected_at = if leb maximum_bypasses (j.bypasses + 1) then some now else j.protected_at;
}

abbrev pub is_protected_at : ℕ → ℕ → Option Job → Bool
is_protected_at capacity now none = false
is_protected_at capacity now (some j) = is_some (work_waiter_protection (as_waiter j) capacity now)

abbrev pub bypasses_of : Option Job → ℕ
bypasses_of none = 0
bypasses_of (some j) = j.bypasses

-- The passes are charged; `before` is the queue that the selection saw.
unfoldable pub charge_passed : ℕ → List Job → List ℕ → Sim → Sim
charge_passed capacity before [] s = s
charge_passed capacity before (i ∷ is) s =
    let charged = update_at i (charge_job s.now) s.queue in
    let violated = if is_protected_at capacity s.now (job_at i before) then 1 else 0 in
    charge_passed capacity before is (record s {
      queue = charged;
      tally = record s.tally {
        protected_violations = s.tally.protected_violations + violated;
        maximum_seen = max s.tally.maximum_seen (bypasses_of (job_at i charged));
      };
    })

abbrev pub contend : Sim → Sim
contend s = record s {
  tally = record s.tally { contention_decisions = s.tally.contention_decisions + 1 };
}

-- A place behind the head was selected.
abbrev pub is_behind : Option ℕ → Bool
is_behind none = false
is_behind (some i) = ltb 0 i

unfoldable pub settle_choice : ℕ → Choice → Sim → Sim
unfolding charge_passed
settle_choice capacity c s =
    if is_behind c.place then charge_passed capacity s.queue c.passed (contend s) else s

abbrev pub job_wait_ms : ℕ → Job → ℕ
job_wait_ms now j = (now - j.queued_at) / 1_000_000

abbrev pub start_job : ℕ → Job → Sim → Sim
start_job i j s = record s {
  queue = drop_at i s.queue;
  running = s.running ++ record { job = j; finish_at = s.now + j.runtime } ∷ [];
  used = s.used + j.weight;
  tally = record s.tally {
    waits = s.tally.waits ++ (j.class, job_wait_ms s.now j) ∷ [];
    short_runtime_long_wait =
        s.tally.short_runtime_long_wait
        + (if leb 60_000 (job_wait_ms s.now j) && leb j.runtime 10_000_000_000 then 1 else 0);
  };
}

abbrev pub violate : Sim → Sim
violate s = record s {
  tally = record s.tally { capacity_violations = s.tally.capacity_violations + 1 };
}

-- One round of the inner loop on a queue that is not empty, and whether it goes on.
abbrev pub start_at : ℕ → ℕ → Option Job → Sim → Sim × Bool
start_at capacity i none s = (s, false)  -- no place is out of the queue
start_at capacity i (some j) s =
    if ltb capacity (s.used + j.weight) then (violate s, false) else (start_job i j s, true)

abbrev pub start_choice : ℕ → Option ℕ → Sim → Sim × Bool
start_choice capacity none s = ((if is_empty s.running then s else contend s), false)
start_choice capacity (some i) s = start_at capacity i (job_at i s.queue) s

unfoldable pub round : ReplayMode → ℕ → Sim → Sim × Bool
unfolding choose_place settle_choice
round mode capacity s =
    let c = choose_place mode capacity s in
    start_choice capacity c.place (settle_choice capacity c s)

-- The inner loop; a round that goes on shortens the queue by one.
unfoldable pub drain : ReplayMode → ℕ → ℕ → Sim → Sim
unfolding round
drain mode capacity zero s = s
drain mode capacity (suc n) s =
    if is_empty s.queue
    then s
    else let r = round mode capacity s in
      let rest = drain mode capacity n r.0 in if r.1 then rest else r.0
