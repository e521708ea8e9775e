-- ===== src/GoCache/Eviction.antt =====
-- What eviction leaves: the bound holds, only the oldest objects go, and none goes in vain.
use session_pressure.Common.{
  ℕ, List, ◌≤◌, arith, ◌≡◌, ◌∷◌, ◌+◌, Bool-cases, leb, inl, leb→le, inr, ◌-◌, [], sort_by, ◌<◌,
  SortedBy, ◌++◌, some, sum_of-sort_by, All, sort_by-SortedBy, Option, sym, false, ◌==◌, ap, subst,
  ◌∙◌, sort_by-perm, none, sum_of-append, refl,
}
use session_pressure.GoCache.{
  Object, total_size, older, drop_until, evict, put, find_object, write_object,
}
use mathlib.Core.List.{Perm}
use mathlib.Core.List.Perm

drop_until_bound :
    (bound : ℕ) (os : List Object) → total_size (drop_until bound (total_size os) os) ≤ bound
unfolding drop_until
drop_until_bound bound [] = omega arith
drop_until_bound bound (o ∷ os) = elim (Bool-cases (leb (total_size (o ∷ os)) bound)) [
  | inl e ↦ rw e (leb→le _ _ e)
  | inr e ↦
      let rest : total_size (o ∷ os) - o.size ≡ total_size os = omega arith in
      rw (e, rest) (drop_until_bound bound os)
]

-- The total after an eviction is within the bound, whatever the cache held.
pub evict_bound : (bound : ℕ) (os : List Object) → total_size (evict bound os) ≤ bound
unfolding evict
evict_bound bound os = elim (Bool-cases (leb (total_size os) bound)) [
  | inl e ↦ rw e (leb→le _ _ e)
  | inr e ↦
      let sorted = sort_by older os in
      let same : total_size sorted ≡ total_size os = sum_of-sort_by older (λ o. o.size) os in
      rw (e, sym same) (drop_until_bound bound sorted)
]

-- Every object that goes is needed: with it and what was removed after it, the bound is passed.
abbrev pub Needed : ℕ → List Object → List Object → Type 0
Needed bound kept [] = Unit {0}
Needed bound kept (g ∷ gs) = (bound < total_size (g ∷ gs) + total_size kept) × Needed bound kept gs

drop_until_splits :
    (bound : ℕ) (os : List Object)
    → SortedBy older os
    → let kept = drop_until bound (total_size os) os in
      (gone : List Object) × (os ≡ gone ++ kept)
      × All (λ g. All (λ k. older k g ≡ false) kept) gone
      × Needed bound kept gone
unfolding drop_until
drop_until_splits bound [] s = ([], refl, tt, tt)
drop_until_splits bound (o ∷ os) s = elim (Bool-cases (leb (total_size (o ∷ os)) bound)) [
  | inl e ↦ rw e ([], refl, tt, tt)
  | inr e ↦
      let rest : total_size (o ∷ os) - o.size ≡ total_size os = omega arith in
      let (gone, parts, old, needed) = drop_until_splits bound os s.1 in
      let kept = drop_until bound (total_size os) os in
      let sum : total_size os ≡ total_size gone + total_size kept =
        ap total_size parts ∙ sum_of-append (λ x. x.size) gone kept in
      rw (e, rest)
        (
          o ∷ gone,
          ap (λ r. o ∷ r) parts,
          (All-back gone kept (subst (λ r. All (λ k. older k o ≡ false) r) parts s.0), old),
          (ground (arith, sum), needed),
        )
]
  where
    All-back :
        (gs ks : List Object)
        → All (λ k. older k o ≡ false) (gs ++ ks)
        → All (λ k. older k o ≡ false) ks
    All-back [] ks a = a
    All-back (g ∷ gs) ks a = All-back gs ks a.1

older-SortedBy : (os : List Object) → SortedBy older (sort_by older os)
older-SortedBy = sort_by-SortedBy older (λ x y e. ground arith) (λ x y z e f. ground arith)

-- An eviction parts the cache in what goes and what stays: no object that stays is older than one
-- that goes, and each one that goes was still needed to reach the bound when it went.
pub evict_oldest :
    (bound : ℕ) (os : List Object)
    → (gone : List Object) × Perm os (gone ++ evict bound os)
      × All (λ g. All (λ k. older k g ≡ false) (evict bound os)) gone
      × Needed bound (evict bound os) gone
unfolding evict
evict_oldest bound os = elim (Bool-cases (leb (total_size os) bound)) [
  | inl e ↦ rw e ([], Perm.rfl, tt, tt)
  | inr e ↦
      let sorted = sort_by older os in
      let same : total_size sorted ≡ total_size os = sum_of-sort_by older (λ o. o.size) os in
      let (gone, parts, old, needed) = drop_until_splits bound sorted (older-SortedBy os) in
      rw (e, sym same)
        (gone, subst (λ l. Perm os l) parts (Perm.symm (sort_by-perm older os)), old, needed)
]

found_size :
    (a : ℕ) (os : List Object) (o : Object) → find_object a os ≡ some o → o.size ≤ total_size os
unfolding find_object
found_size a [] o h = cc
found_size a (x ∷ os) o h = elim (Bool-cases (x.action == a)) [
  | inl e ↦
      let same : some x ≡ some o = rw e at h in
      let sizes : x.size ≡ o.size = ap (size_or x) same in omega (arith, sizes)
  | inr e ↦ omega (arith, found_size a os o (rw e at h))
]
  where
    size_or : Object → Option Object → ℕ
    size_or d none = d.size
    size_or d (some y) = y.size

-- An object that is found after a put is no larger than the bound: in particular, what was put is not
-- found if it is larger.
pub put_within :
    (bound a output size now key : ℕ) (os : List Object) (o : Object)
    → find_object key (put bound a output size now os) ≡ some o
    → o.size ≤ bound
unfolding put
put_within bound a output size now key os o h = omega (
  arith,
  found_size key (put bound a output size now os) o h,
  evict_bound bound (
      write_object
        (record { action = a; mod_time = now; size = size; output = output; put_at = now }) os),
)
