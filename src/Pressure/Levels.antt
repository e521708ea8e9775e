-- ===== src/Pressure/Levels.antt =====
-- What the levels of evaluate in sessionpressure/types.go promise.
use session_pressure.Pressure.{
  BreachKind, throughput_breaches, evaluate, level_rank, Breach, HostSample, breaches, max_level,
  worst, PressureThresholds, memory_breaches, breach, swap_out_breach, host_cpu, cpu_breach,
  swap_thrash, at_least, live_breaches, swap_latched, swap_space, swap_rate, cpu_known, swap_breach,
}
use session_pressure.Common.{
  List, Bool, ◌≤◌, ◌≡◌, max, ◌++◌, if◌then◌else◌, true, Bool-cases, arith, ◌∙◌, [], ◌&&◌, false,
  ltb, ◌∷◌, not, inl, leb, ◌+◌, refl, inr, ap,
}
use session_pressure.Gate.{Level, normal, critical, red, warning}

pub level_rank-max_level :
    (a b : Level) → level_rank (max_level a b) ≡ max (level_rank a) (level_rank b)
level_rank-max_level a b = elim (Bool-cases (ltb (level_rank a) (level_rank b))) [
  | inl h ↦ rw h (ground arith)
  | inr h ↦ rw h (ground arith)
]

worst-append :
    (xs ys : List Breach)
    → level_rank (worst (xs ++ ys)) ≡ max (level_rank (worst xs)) (level_rank (worst ys))
worst-append [] ys = omega arith
worst-append (x ∷ xs) ys =
    let left = level_rank-max_level x.level (worst (xs ++ ys)) in
    let right = level_rank-max_level x.level (worst xs) in
    omega (arith, left, right, worst-append xs ys)

one_worst : (k : BreachKind) (l : Level) → level_rank (worst (breach k l)) ≡ level_rank l
one_worst k l = level_rank-max_level l normal ∙ (omega arith)

cpu_rank :
    (a b : Bool)
    → level_rank
        (worst (if a then breach host_cpu red else if b then breach host_cpu warning else []))
      ≤ 2
cpu_rank true b = omega arith
cpu_rank false true = omega arith
cpu_rank false false = omega arith

swap_out_rank :
    (a b c d : Bool)
    → level_rank (
        worst (
          if a
          then []
          else if b
          then breach swap_thrash warning
          else if c
          then breach swap_latched warning
          else if d
          then breach swap_rate warning
          else []))
      ≤ 2
swap_out_rank true b c d = omega arith
swap_out_rank false true c d = omega arith
swap_out_rank false false true d = omega arith
swap_out_rank false false false true = omega arith
swap_out_rank false false false false = omega arith

throughput_rank :
    (s : HostSample) (t : PressureThresholds) → level_rank (worst (throughput_breaches s t)) ≤ 2
unfolding throughput_breaches
throughput_rank s t =
    let parts = worst-append (swap_out_breach s t) (cpu_breach s t) in
    let swap =
      swap_out_rank (not s.swap_io_available)
        (ltb 0 t.swap_out_thrash && leb t.swap_out_thrash s.swap_out) s.swap_thrash_latched
        (ltb 0 t.swap_out_warning && leb t.swap_out_warning s.swap_out) in
    let cpu =
      cpu_rank (cpu_known s && leb t.host_cpu_red s.host_cpu_percent)
        (cpu_known s && leb t.host_cpu_warning s.host_cpu_percent) in
    omega (arith, parts, swap, cpu)

-- The swap space adds at most one rung to a live breach, and nothing to none.
swap_rank :
    (c r w : Bool) (live : Level)
    → let l = level_rank (
        worst (
          if c && at_least live red
          then breach swap_space critical
          else if r && at_least live warning
          then breach swap_space red
          else if w && at_least live warning
          then breach swap_space warning
          else [])) in
      (l ≤ level_rank live + 1) × (live ≡ normal → l ≡ 0)
swap_rank true true true normal = (omega arith, λ q. refl)
swap_rank true true true warning = (omega arith, λ q. omega (arith, ap level_rank q))
swap_rank true true true red = (omega arith, λ q. omega (arith, ap level_rank q))
swap_rank true true true critical = (omega arith, λ q. omega (arith, ap level_rank q))
swap_rank true true false normal = (omega arith, λ q. refl)
swap_rank true true false warning = (omega arith, λ q. omega (arith, ap level_rank q))
swap_rank true true false red = (omega arith, λ q. omega (arith, ap level_rank q))
swap_rank true true false critical = (omega arith, λ q. omega (arith, ap level_rank q))
swap_rank true false true normal = (omega arith, λ q. refl)
swap_rank true false true warning = (omega arith, λ q. omega (arith, ap level_rank q))
swap_rank true false true red = (omega arith, λ q. omega (arith, ap level_rank q))
swap_rank true false true critical = (omega arith, λ q. omega (arith, ap level_rank q))
swap_rank true false false normal = (omega arith, λ q. refl)
swap_rank true false false warning = (omega arith, λ q. omega (arith, ap level_rank q))
swap_rank true false false red = (omega arith, λ q. omega (arith, ap level_rank q))
swap_rank true false false critical = (omega arith, λ q. omega (arith, ap level_rank q))
swap_rank false true true normal = (omega arith, λ q. refl)
swap_rank false true true warning = (omega arith, λ q. omega (arith, ap level_rank q))
swap_rank false true true red = (omega arith, λ q. omega (arith, ap level_rank q))
swap_rank false true true critical = (omega arith, λ q. omega (arith, ap level_rank q))
swap_rank false true false normal = (omega arith, λ q. refl)
swap_rank false true false warning = (omega arith, λ q. omega (arith, ap level_rank q))
swap_rank false true false red = (omega arith, λ q. omega (arith, ap level_rank q))
swap_rank false true false critical = (omega arith, λ q. omega (arith, ap level_rank q))
swap_rank false false true normal = (omega arith, λ q. refl)
swap_rank false false true warning = (omega arith, λ q. omega (arith, ap level_rank q))
swap_rank false false true red = (omega arith, λ q. omega (arith, ap level_rank q))
swap_rank false false true critical = (omega arith, λ q. omega (arith, ap level_rank q))
swap_rank false false false normal = (omega arith, λ q. refl)
swap_rank false false false warning = (omega arith, λ q. omega (arith, ap level_rank q))
swap_rank false false false red = (omega arith, λ q. omega (arith, ap level_rank q))
swap_rank false false false critical = (omega arith, λ q. omega (arith, ap level_rank q))

rank_zero : (l : Level) → level_rank l ≡ 0 → l ≡ normal
rank_zero normal h = refl
rank_zero warning h = let f : ⊥ = omega (arith, h) in absurd f
rank_zero red h = let f : ⊥ = omega (arith, h) in absurd f
rank_zero critical h = let f : ⊥ = omega (arith, h) in absurd f

rank_top : (l : Level) → 3 ≤ level_rank l → l ≡ critical
rank_top normal h = let f : ⊥ = omega (arith, h) in absurd f
rank_top warning h = let f : ⊥ = omega (arith, h) in absurd f
rank_top red h = let f : ⊥ = omega (arith, h) in absurd f
rank_top critical h = refl

-- The level with the CPU and the rate of swapping is never below the memory level, and it is critical
-- only where the memory level is. Swap in use adds at most one rung to the live memory signals, and
-- without one of these it raises nothing.
pub evaluate_levels :
    (s : HostSample) (t : PressureThresholds)
    → let full = (evaluate s t true).level in
      let memory = (evaluate s t false).level in
      let live = worst (live_breaches s t) in
      (level_rank memory ≤ level_rank full)
      × (full ≡ critical → memory ≡ critical)
      × (level_rank memory ≤ level_rank live + 1)
      × (live ≡ normal → memory ≡ normal)
unfolding evaluate breaches memory_breaches
evaluate_levels s t =
    let live = live_breaches s t in
    let swap = swap_breach (worst live) s t in
    let memory = live ++ swap in
    let whole = worst-append memory (throughput_breaches s t) in
    let part = worst-append live swap in
    let low = throughput_rank s t in
    let (one, none_alone) =
      swap_rank (leb t.swap_critical s.swap_used) (leb t.swap_red s.swap_used)
        (leb t.swap_warning s.swap_used) (worst live) in
    (
      omega (arith, whole),
      λ h. rank_top (worst memory) (let top = ap level_rank h in omega (arith, whole, low, top)),
      omega (arith, part, one),
      λ h.
          rank_zero (worst memory)
            (let z = ap level_rank h in omega (arith, part, none_alone h, z)),
    )
