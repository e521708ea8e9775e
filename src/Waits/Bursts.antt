-- ===== src/Waits/Bursts.antt =====
-- The bursts of long waits in sessionpressure/workwaitattribution.go.
use session_pressure.Waits.{WaitOperation, wait_burst_gap, wait_total}
use session_pressure.Waits.LongWaits.{
  Burst, add_burst, burst_from, all_bursts, LongWait, total_wait, as_long_wait, starts_before,
  is_long, join_burst,
}
use session_pressure.Common.{
  List, ◌∷◌, ℕ, ◌≡◌, ◌+◌, sum_of, arith, Bool-cases, length, [], ltb, suc, map, sort_by, keep_if,
  ◌<◌, inl, inr, ap, ◌∙◌, sum_of-sort_by, refl, sym,
}

-- The end of a burst lies more than the gap before the start of the next; the last one is first.
abbrev pub Apart : List Burst → Type 0
Apart [] = Unit {0}
Apart (b ∷ []) = Unit {0}
Apart (b ∷ c ∷ bs) = (c.end + wait_burst_gap < b.start) × Apart (c ∷ bs)

abbrev pub burst_waits : List Burst → ℕ
burst_waits = sum_of (λ b. b.wait)

abbrev pub burst_operations : List Burst → ℕ
burst_operations = sum_of (λ b. b.operations)

Apart-restart :
    (b d : Burst) (bs : List Burst) → d.start ≡ b.start → Apart (b ∷ bs) → Apart (d ∷ bs)
Apart-restart b d [] q a = tt
Apart-restart b d (c ∷ bs) q a = (omega (arith, q, a.0), a.1)

add_burst-Apart : (w : LongWait) (bs : List Burst) → Apart bs → Apart (add_burst w bs)
unfolding add_burst
add_burst-Apart w [] a = tt
add_burst-Apart w (b ∷ bs) a = elim (Bool-cases (ltb (b.end + wait_burst_gap) w.start)) [
  | inl h ↦ rw h (ground arith, a)
  | inr h ↦ rw h (Apart-restart b (join_burst w b) bs refl a)
]

add_burst_sums :
    (w : LongWait) (bs : List Burst)
    → (burst_waits (add_burst w bs) ≡ w.wait + burst_waits bs)
      × (burst_operations (add_burst w bs) ≡ suc (burst_operations bs))
unfolding add_burst
add_burst_sums w [] = (omega arith, omega arith)
add_burst_sums w (b ∷ bs) = elim (Bool-cases (ltb (b.end + wait_burst_gap) w.start)) [
  | inl h ↦ rw h (omega arith, omega arith)
  | inr h ↦ rw h (omega arith, omega arith)
]

burst_from_lem :
    (bs : List Burst) (ws : List LongWait)
    → Apart bs
    → let r = burst_from bs ws in
      Apart r
      × (burst_waits r ≡ burst_waits bs + sum_of (λ w. w.wait) ws)
      × (burst_operations r ≡ burst_operations bs + length ws)
unfolding burst_from
burst_from_lem bs [] a = (a, omega arith, omega arith)
burst_from_lem bs (w ∷ ws) a =
    let (apart, waits, operations) = burst_from_lem (add_burst w bs) ws (add_burst-Apart w bs a) in
    let (one_wait, one_more) = add_burst_sums w bs in
    (apart, omega (arith, waits, one_wait), omega (arith, operations, one_more))

long_waits_total :
    (os : List WaitOperation) → sum_of (λ w. w.wait) (map as_long_wait os) ≡ total_wait os
long_waits_total [] = refl
long_waits_total (o ∷ os) = ap (λ n. wait_total o + n) (long_waits_total os)

length-map_long : (os : List WaitOperation) → length (map as_long_wait os) ≡ length os
length-map_long [] = refl
length-map_long (o ∷ os) = ap suc (length-map_long os)

length-ones : (ws : List LongWait) → length ws ≡ sum_of (λ (w : LongWait). 1) ws
length-ones [] = refl
length-ones (w ∷ ws) = omega (arith, length-ones ws)

length-sort_by : (ws : List LongWait) → length (sort_by starts_before ws) ≡ length ws
length-sort_by ws =
    length-ones (sort_by starts_before ws)
    ∙ sum_of-sort_by starts_before (λ (w : LongWait). 1) ws
    ∙ sym (length-ones ws)

-- Two bursts lie more than the gap apart, and the bursts together hold every long wait once: as many
-- operations, and as much wait.
pub all_bursts_lem :
    (os : List WaitOperation)
    → let bs = all_bursts os in
      Apart bs
      × (burst_waits bs ≡ total_wait (keep_if is_long os))
      × (burst_operations bs ≡ length (keep_if is_long os))
unfolding all_bursts
all_bursts_lem os =
    let long = keep_if is_long os in
    let ws = map as_long_wait long in
    let (apart, waits, operations) = burst_from_lem [] (sort_by starts_before ws) tt in
    let sorted_total = sum_of-sort_by starts_before (λ (w : LongWait). w.wait) ws in
    (
      apart,
      omega (arith, waits, sorted_total, long_waits_total long),
      omega (arith, operations, length-sort_by ws, length-map_long long),
    )
