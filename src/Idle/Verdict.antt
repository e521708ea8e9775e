-- ===== src/Idle/Verdict.antt =====
-- When a lease is parked, and how its parked time is counted, sessionpressure/workidle.go.
use session_pressure.Common.{ℕ, some, ◌≡◌, false, true, ◌<◌, ◌+◌, ◌≤◌, ◌*◌, ◌-◌, arith, none, refl}
use session_pressure.Idle.{
  Detector, Activity, parks, wakes, observe_activity, judge, set_parked, revert, totals, is_working,
  is_light,
}

-- A detector parks only a lease that is charged, against an earlier reading, after the idle time has
-- passed since the group was last busy, and on an interval with at most 1% of one core and at most
-- four page-ins a second.
pub observe_activity_parks :
    (now : ℕ) (sample : Activity) (d : Detector)
    → (observe_activity now (some sample) d).1 ≡ parks
    → (d.parked ≡ false)
      × (d.have_last ≡ true)
      × (d.last_at < now)
      × (d.idle_since + d.idle_after ≤ now)
      × (100 * (sample.cpu_ns - d.last.cpu_ns) ≤ now - d.last_at)
      × (1_000_000_000 * (sample.pageins - d.last.pageins) ≤ 4 * (now - d.last_at))
unfolding observe_activity judge set_parked is_working is_light
observe_activity_parks now sample d h =
    (ground arith, ground arith, ground arith, ground arith, ground arith, ground arith)

-- A wake that could not be made durable after a failed reading is undone as if the lease had been
-- parked again at the last good reading: the time from that reading on is then counted twice.
pub revert_counts_twice :
    (now : ℕ) (d : Detector)
    → d.parked ≡ true
    → let (woken, turn) = observe_activity now none d in
      (turn ≡ wakes) × ((totals now (revert turn woken)).0 ≡ (totals now d).0 + (now - d.last_at))
unfolding observe_activity set_parked revert totals
revert_counts_twice now d p = rw p (refl, refl)
