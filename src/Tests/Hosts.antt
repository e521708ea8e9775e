-- ===== src/Tests/Hosts.antt =====
-- Samples of a host, and the theorems on pressure and launches at them.
use session_pressure.Pressure.Launching.{launch_for_queue_refuses, BlocksLaunch}
use session_pressure.Pressure.Storage.{evaluate_storage_holds}
use session_pressure.Pressure.Levels.{evaluate_levels}
use session_pressure.Gate.{red, normal, critical}
use session_pressure.Common.{
  some, true, ◌∷◌, false, [], ◌≡◌, none, refl, ◌≤◌, ◌<◌, ◌+◌, ℕ, ◌↔◌, ◌⊎◌,
}
use session_pressure.Pressure.{
  PressureThresholds, HostSample, StoragePolicy, Launch, LaunchPolicy, QueueStatus, evaluate,
  launch_for_queue, evaluate_storage, breaches, launch_new, launch_resume, memory_breaches,
  live_breaches, worst, level_rank, throughput_breaches, release_of,
}

abbrev bounds : PressureThresholds
bounds = record {
  host_cpu_warning = 70_000;
  host_cpu_red = 85_000;
  free_warning = 20_000;
  free_red = 12_000;
  free_critical = 6_000;
  swap_warning = 1_000;
  swap_red = 2_000;
  swap_critical = 4_000;
  swap_out_warning = 20;
  swap_out_thrash = 100;
  tree_warning = 4_000;
  tree_red = 8_000;
  tree_critical = 16_000;
  agent_total_warning = 8_000;
  agent_total_red = 16_000;
  agent_total_critical = 32_000;
}

-- A busy host with much old swap, and little memory in use.
abbrev busy_host : HostSample
busy_host = record {
  free_percent = 40_000;
  agent_rss = 1_000;
  top_tree = some 900;
  swap_used = 9_000;
  swap_io_available = true;
  swap_out = 150;
  swap_thrash_latched = false;
  host_cpu_available = true;
  host_cpu_percent = 97_000;
}

abbrev volume : StoragePolicy
volume = record {
  enabled = true;
  warning_free = 30;
  red_free = 20;
  critical_free = 10;
  warning_release = 35;
  red_release = 25;
  critical_release = 15;
}

abbrev red_host : Launch
red_host = record {
  allowed = true;
  level = red;
  queue_limited = false;
  warning_added = none;
  would_block = false;
}

abbrev launches : LaunchPolicy
launches = record {
  enforce_admission = true;
  queue_depth_block = 8;
  oldest_wait_block_ms = 600_000;
  resume_warns = true;
}

abbrev long_queue : QueueStatus
long_queue = record { queue_depth = 9; waits = 700_000 ∷ [] }

busy_is_red : (evaluate busy_host bounds true).level ≡ red
unfolding evaluate breaches memory_breaches live_breaches throughput_breaches
busy_is_red = refl

busy_memory_is_normal : (evaluate busy_host bounds false).level ≡ normal
unfolding evaluate breaches memory_breaches live_breaches throughput_breaches
busy_memory_is_normal = refl

new_launch_waits : (launch_for_queue red_host launches long_queue launch_new).allowed ≡ false
unfolding launch_for_queue
new_launch_waits = refl

evaluate_levels_example :
    let full = (evaluate busy_host bounds true).level in
    let memory = (evaluate busy_host bounds false).level in
    let live = worst (live_breaches busy_host bounds) in
    (level_rank memory ≤ level_rank full)
    × (full ≡ critical → memory ≡ critical)
    × (level_rank memory ≤ level_rank live + 1)
    × (live ≡ normal → memory ≡ normal)
evaluate_levels_example = evaluate_levels busy_host bounds

evaluate_storage_holds_example :
    let v = evaluate_storage volume (some 22) red in
    (level_rank v.instantaneous ≤ level_rank v.level)
    × (22 < release_of volume red → level_rank red ≤ level_rank v.level)
    × (release_of volume red ≤ 22 → v.level ≡ v.instantaneous)
    × ((more : ℕ)
        → 22 ≤ more
        → level_rank (evaluate_storage volume (some more) red).level ≤ level_rank v.level)
    × ((evaluate_storage volume (some 22) v.level).level ≡ v.level)
evaluate_storage_holds_example = evaluate_storage_holds volume 22 red refl

launch_for_queue_refuses_example :
    (((launch_for_queue red_host launches long_queue launch_new).allowed ≡ false)
      ↔ BlocksLaunch red_host launches long_queue)
    × (((launch_for_queue red_host launches long_queue launch_resume).allowed ≡ false) ↔ (
        (red_host.allowed ≡ false)
        ⊎ BlocksLaunch red_host launches long_queue × (launches.resume_warns ≡ false)))
launch_for_queue_refuses_example = launch_for_queue_refuses red_host launches long_queue
