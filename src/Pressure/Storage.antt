-- ===== src/Pressure/Storage.antt =====
-- The hysteresis of EvaluateStorage in sessionpressure/types.go.
use session_pressure.Pressure.Levels.{level_rank-max_level}
use session_pressure.Gate.{Level, critical, red, warning, normal}
use session_pressure.Common.{
  false, Bool, ℕ, if◌then◌else◌, ◌≤◌, ◌≡◌, max, ltb, true, arith, some, Bool-cases, ◌<◌, inl, inr,
  ◌⊎◌, ap, refl, ◌∙◌, not, sym, subst,
}
use session_pressure.Pressure.{
  StoragePolicy, evaluate_storage, level_rank, storage_level, storage_now, is_held, release_of,
  max_level, storage_verdict, StorageVerdict, clear_storage,
}

storage_rank :
    (p : StoragePolicy) (free : ℕ) (previous : Level)
    → level_rank (storage_level p free previous)
      ≡ max
          (level_rank (storage_now p free))
          (if is_held p free previous then level_rank previous else 0)
storage_rank p free previous = elim (Bool-cases (is_held p free previous)) [
  | inl h ↦ rw h (level_rank-max_level (storage_now p free) previous)
  | inr h ↦ rw h (omega arith)
]

now_rank :
    (a b c : Bool)
    → level_rank (if a then critical else if b then red else if c then warning else normal)
      ≡ (if a then 3 else if b then 2 else if c then 1 else 0)
now_rank true b c = refl
now_rank false true c = refl
now_rank false false true = refl
now_rank false false false = refl

storage_now_antitone :
    (p : StoragePolicy) (low high : ℕ)
    → low ≤ high
    → level_rank (storage_now p high) ≤ level_rank (storage_now p low)
storage_now_antitone p low high h =
    let a = now_rank (ltb low p.critical_free) (ltb low p.red_free) (ltb low p.warning_free) in
    let b = now_rank (ltb high p.critical_free) (ltb high p.red_free) (ltb high p.warning_free) in
    ground (arith, a, b)

max_level_self : (l : Level) → max_level l l ≡ l
max_level_self normal = refl
max_level_self warning = refl
max_level_self red = refl
max_level_self critical = refl

kept :
    (p : StoragePolicy) (free : ℕ) → storage_level p free (storage_now p free) ≡ storage_now p free
kept p free = elim (Bool-cases (is_held p free (storage_now p free))) [
  | inl h ↦ rw h (max_level_self (storage_now p free))
  | inr h ↦ rw h refl
]

free_again :
    (p : StoragePolicy) (free : ℕ) (previous : Level)
    → is_held p free previous ≡ false
    → storage_level p free previous ≡ storage_now p free
free_again p free previous h = rw h refl

max_level-cases : (a b : Level) → (max_level a b ≡ a) ⊎ (max_level a b ≡ b)
max_level-cases a b = elim (Bool-cases (ltb (level_rank a) (level_rank b))) [
  | inl h ↦ inr (rw h refl)
  | inr h ↦ inl (rw h refl)
]

held_again :
    (p : StoragePolicy) (free : ℕ) (previous : Level)
    → is_held p free previous ≡ true
    → storage_level p free previous ≡ max_level (storage_now p free) previous
held_again p free previous h = rw h refl

held_keeps :
    (p : StoragePolicy) (free : ℕ) (previous : Level)
    → is_held p free previous ≡ true
    → level_rank previous ≤ level_rank (storage_level p free previous)
held_keeps p free previous h =
    let q = ap level_rank (held_again p free previous h) in
    omega (arith, q, level_rank-max_level (storage_now p free) previous)

storage_level-cases :
    (p : StoragePolicy) (free : ℕ) (previous : Level)
    → (storage_level p free previous ≡ storage_now p free)
      ⊎ (storage_level p free previous ≡ previous)
storage_level-cases p free previous = elim (Bool-cases (is_held p free previous)) [
  | inl h ↦ elim (max_level-cases (storage_now p free) previous) [
    | inl q ↦ inl (held_again p free previous h ∙ q)
    | inr q ↦ inr (held_again p free previous h ∙ q)
  ]
  | inr h ↦ inl (free_again p free previous h)
]

-- A reading at the same free space, after a band was entered or held, gives the same band.
storage_level_again :
    (p : StoragePolicy) (free : ℕ) (previous : Level)
    → storage_level p free (storage_level p free previous) ≡ storage_level p free previous
storage_level_again p free previous = elim (storage_level-cases p free previous) [
  | inl q ↦ ap (λ l. storage_level p free l) q ∙ kept p free ∙ sym q
  | inr q ↦ ap (λ l. storage_level p free l) q
]

evaluate_on :
    (p : StoragePolicy) (free : ℕ) (previous : Level)
    → p.enabled ≡ true
    → evaluate_storage p (some free) previous ≡ storage_verdict p free previous
unfolding evaluate_storage
evaluate_on p free previous on =
    ap (λ b. if not b then clear_storage else storage_verdict p free previous) on

storage_rises :
    (p : StoragePolicy) (free more : ℕ) (previous : Level)
    → free ≤ more
    → level_rank (storage_level p more previous) ≤ level_rank (storage_level p free previous)
storage_rises p free more previous h =
    let rank = storage_rank p free previous in
    let rank' = storage_rank p more previous in
    let now = storage_now_antitone p free more h in ground (arith, rank, rank', now)

-- For an enabled policy and a volume that was read: the level is never below what the free space
-- itself calls for; a band that was entered is kept while less than its release is free, and from
-- then on the level is what the free space calls for; more free space never gives a higher level from
-- the same band; and a second reading of the same free space changes nothing.
pub evaluate_storage_holds :
    (p : StoragePolicy) (free : ℕ) (previous : Level)
    → p.enabled ≡ true
    → let v = evaluate_storage p (some free) previous in
      (level_rank v.instantaneous ≤ level_rank v.level)
      × (free < release_of p previous → level_rank previous ≤ level_rank v.level)
      × (release_of p previous ≤ free → v.level ≡ v.instantaneous)
      × ((more : ℕ)
          → free ≤ more
          → level_rank (evaluate_storage p (some more) previous).level ≤ level_rank v.level)
      × ((evaluate_storage p (some free) v.level).level ≡ v.level)
evaluate_storage_holds p free previous on =
    let v = evaluate_on p free previous on in
    let again : (evaluate_storage p (some free) (storage_level p free previous)).level
        ≡ storage_level p free previous =
      ap (λ (w : StorageVerdict). w.level) (evaluate_on p free (storage_level p free previous) on)
      ∙ storage_level_again p free previous in
    let rank = storage_rank p free previous in
    let low : level_rank (storage_now p free) ≤ level_rank (storage_level p free previous) =
      omega (arith, rank) in
    let held : free < release_of p previous
        → level_rank previous ≤ level_rank (storage_level p free previous) =
      λ h. held_keeps p free previous (ground (arith, h)) in
    let released : release_of p previous ≤ free
        → storage_level p free previous ≡ storage_now p free =
      λ h. free_again p free previous (ground (arith, h)) in
    let more_free : (more : ℕ)
        → free ≤ more
        → level_rank (evaluate_storage p (some more) previous).level
          ≤ level_rank (storage_level p free previous) =
      λ more h.
        subst
          (λ (w : StorageVerdict). level_rank w.level ≤ level_rank (storage_level p free previous))
          (sym (evaluate_on p more previous on)) (storage_rises p free more previous h) in
    rw v (low, held, released, more_free, again)
