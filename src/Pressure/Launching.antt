-- ===== src/Pressure/Launching.antt =====
-- What the queue does to a launch in sessionpressure/admission.go.
use session_pressure.Gate.{red, Level, critical}
use session_pressure.Common.{◌≡◌, arith, false, Bool, ◌⊎◌, ◌↔◌, true, ◌≤◌}
use session_pressure.Pressure.{
  launch_for_queue, Launch, LaunchPolicy, QueueStatus, launch_new, launch_resume, oldest_wait,
}

abbrev pub is_red_or_critical : Level → Bool
is_red_or_critical red = true
is_red_or_critical critical = true
is_red_or_critical _ = false

-- The host refuses, or the policy is enforced on a host that is red or critical, over a queue that is
-- as deep as the depth threshold or whose first waiter has waited for the wait threshold.
abbrev pub BlocksLaunch : Launch → LaunchPolicy → QueueStatus → Type 0
BlocksLaunch host p q =
    (host.allowed ≡ false)
    ⊎ ((p.enforce_admission ≡ true)
        × (is_red_or_critical host.level ≡ true)
        × ((p.queue_depth_block ≤ q.queue_depth) ⊎ (p.oldest_wait_block_ms ≤ oldest_wait q.waits)))

-- A new launch is refused exactly when its host refuses it, or under enforcement, at a host level of
-- red or critical, with the queue's depth at its threshold or above or its oldest wait at its own. A
-- resumption is refused then too, but where the policy lets resumptions pass with a warning only its
-- host can refuse it.
pub launch_for_queue_refuses :
    (host : Launch) (p : LaunchPolicy) (q : QueueStatus)
    → (((launch_for_queue host p q launch_new).allowed ≡ false) ↔ BlocksLaunch host p q)
      × (((launch_for_queue host p q launch_resume).allowed ≡ false)
          ↔ ((host.allowed ≡ false) ⊎ BlocksLaunch host p q × (p.resume_warns ≡ false)))
unfolding launch_for_queue
launch_for_queue_refuses host p q =
    ((λ h. ground arith, λ h. ground arith), (λ h. ground arith, λ h. ground arith))
