-- ===== src/Tests/Parking.antt =====
-- An idle group and its lease.
use session_pressure.Ledger.Ownership.{find_lease}
use session_pressure.Common.{ℕ, true, ◌+◌, false, none, some, ◌≡◌, refl, ◌-◌}
use session_pressure.Idle.{
  Detector, Activity, observe_activity, judge, set_parked, is_working, is_light, parks, wakes,
  watch, revert, totals,
}
use session_pressure.Idle.Verdict.{revert_counts_twice}
use session_pressure.Idle.Charge.{ParkedAs, watch-ParkedAs}
use session_pressure.Tests.Data.{two_waiting}

abbrev quiet : Activity
quiet = record { cpu_ns = 5; pageins = 0 }

abbrev two_minutes : ℕ
two_minutes = 120_000_000_000

-- A group that did nothing since it was first read.
abbrev waiting_group : Detector
waiting_group = record {
  idle_after = two_minutes;
  last = quiet;
  last_at = 1_000;
  have_last = true;
  idle_since = 1_000;
  parked = false;
  parked_at = 0;
  parked_total = 0;
  park_count = 0;
}

abbrev parked_group : Detector
parked_group = record waiting_group { parked = true; parked_at = 1_000; park_count = 1 }

now_parked : (observe_activity (1_000 + two_minutes) (some quiet) waiting_group).1 ≡ parks
unfolding observe_activity judge set_parked is_working is_light
now_parked = refl

revert_counts_twice_example :
    let (woken, turn) = observe_activity 3_000 none parked_group in
    (turn ≡ wakes)
    × ((totals 3_000 (revert turn woken)).0 ≡ (totals 3_000 parked_group).0 + (3_000 - 1_000))
revert_counts_twice_example = revert_counts_twice 3_000 parked_group refl

-- The lease of the group is charged.
charged : ParkedAs 50 false two_waiting
unfolding find_lease
charged = refl

watch-ParkedAs_example :
    let out = watch 50 (1_000 + two_minutes) true (some quiet) waiting_group two_waiting in
    ParkedAs 50 out.0.parked out.1
watch-ParkedAs_example =
    watch-ParkedAs 50 (1_000 + two_minutes) true (some quiet) waiting_group two_waiting charged
