-- ===== src/Ledger/Document/Roundtrip.antt =====
-- Writing a state and reading it again, at the current schema and at the older ones.
use session_pressure.Ledger.Operations.{ok, Result, err}
use session_pressure.Ledger.Override.{schema_current}
use session_pressure.Common.{
  List, ℕ, false, ◌≡◌, some, map, arith, ◌∷◌, [], refl, eq-cases, inl, ◌≤◌, inr, ltb, leb, true,
  Option, if◌then◌else◌, none, ap, Bool-cases, sym, ◌∙◌, subst, ◌&&◌, not, is_empty, ◌||◌,
}
use session_pressure.Ledger.{
  WorkState, Lease, no_selection, Waiter, charged_weight, used_weight, waiter_operations, Hold,
  Latch,
}
use session_pressure.Ledger.Document.{
  read, write, migrate, written_version, lease_at, waiter_at, load_lease, lease_v1, lease_v2,
  lease_v3, waiter_v3, waiter_v4, fill_lease, bless_legacy, any_of, has_owner, blank_state,
}

-- What a state holds that the file does not: it starts anew at each reading.
abbrev pub persistent : WorkState → WorkState
persistent s = record s {
  pruned_admission_holds = 0;
  migrated = false;
  legacy_active = false;
  last_selection = no_selection;
  last_shadow_selection = no_selection;
}

pub map_same : {A : Type 0} (f : A → A) (xs : List A) → ((x : A) → f x ≡ x) → map f xs ≡ xs
map_same f [] h = refl
map_same f (x ∷ xs) h = rw (h x, map_same f xs h) refl

-- At the current schema a state that is written is read back whole, but for what is not persistent.
pub read-write :
    (s : WorkState) → s.schema_version ≡ schema_current → read (some (write s)) ≡ ok (persistent s)
unfolding read write migrate lease_at waiter_at load_lease
read-write s e =
    rw
      (
        e,
        map_same (lease_at schema_current) s.leases (kept_lease),
        map_same (load_lease schema_current) s.leases loaded,
        map_same (waiter_at schema_current) s.waiters kept_waiter,
      )
      refl
  where
    kept_lease : (l : Lease) → lease_at schema_current l ≡ l
    kept_lease l = refl

    loaded : (l : Lease) → load_lease schema_current l ≡ l
    loaded l = refl

    kept_waiter : (w : Waiter) → waiter_at schema_current w ≡ w
    kept_waiter w = refl

unowned : (ls : List Lease) → any_of has_owner (map (lease_at 1) ls) ≡ false
unfolding lease_at lease_v1 lease_v2 lease_v3
unowned [] = refl
unowned (l ∷ ls) = unowned ls

-- What is written is always readable.
read-write_ok : (s : WorkState) → read (some (write s)) ≡ ok (migrate (write s))
unfolding read write
read-write_ok s = elim (eq-cases s.schema_version 1) [
  | inl e ↦ let none_owned = unowned s.leases in rw (e, none_owned) refl
  | inr ne ↦ ground arith
]

stable_lease :
    (v : ℕ) (l : Lease)
    → let w = written_version v in
      load_lease w (lease_at w (load_lease w (lease_at v l))) ≡ load_lease w (lease_at v l)
unfolding lease_at lease_v1 lease_v2 lease_v3 load_lease fill_lease bless_legacy
stable_lease v l = ground arith

stable_waiter : (v : ℕ) (w : Waiter) → waiter_at (written_version v) (waiter_at v w) ≡ waiter_at v w
unfolding waiter_at waiter_v3 waiter_v4
stable_waiter v w = ground arith

-- What every schema keeps of a lease.
abbrev pub Survives : Lease → Lease → Type 0
Survives l m =
    (m.id ≡ l.id)
    × (m.class ≡ l.class)
    × (m.weight ≡ l.weight)
    × (m.pid ≡ l.pid)
    × (m.started_at ≡ l.started_at)
    × (charged_weight l ≤ charged_weight m)

survive_lease : (v : ℕ) (l : Lease) → Survives l (load_lease (written_version v) (lease_at v l))
unfolding lease_at lease_v1 lease_v2 lease_v3 load_lease fill_lease bless_legacy
survive_lease v l = ground arith

-- Two lists of one length, related in place.
abbrev pub Both {ℓ} : {A : Type ℓ} → (A → A → Type 0) → List A → List A → Type 0
Both R [] [] = Unit {0}
Both R [] (y ∷ ys) = ⊥
Both R (x ∷ xs) [] = ⊥
Both R (x ∷ xs) (y ∷ ys) = R x y × Both R xs ys

survive_leases :
    (v : ℕ) (ls : List Lease)
    → let ms = map (load_lease (written_version v)) (map (lease_at v) ls) in
      Both Survives ls ms × (used_weight ls ≤ used_weight ms)
survive_leases v [] = (tt, omega arith)
survive_leases v (l ∷ ls) =
    let one = survive_lease v l in
    let (rest, sum) = survive_leases v ls in ((one, rest), omega (arith, one, sum))

waiter_operations-waiter_at :
    (v : ℕ) (ws : List Waiter) → waiter_operations (map (waiter_at v) ws) ≡ waiter_operations ws
unfolding waiter_at waiter_v3 waiter_v4
waiter_operations-waiter_at v [] = refl
waiter_operations-waiter_at v (w ∷ ws) = ground (arith, waiter_operations-waiter_at v ws)

migrate-queue :
    (s : WorkState)
    → waiter_operations (migrate (write s)).waiters
      ≡ (if leb 3 s.schema_version then waiter_operations s.waiters else [])
unfolding migrate write
migrate-queue s = elim (Bool-cases (leb 3 s.schema_version)) [
  | inl written ↦
      let old : ltb (written_version s.schema_version) 3 ≡ false = ground arith in
      rw (old, written) (waiter_operations-waiter_at s.schema_version s.waiters)
  | inr unwritten ↦
      let old : ltb (written_version s.schema_version) 3 ≡ true = ground arith in
      rw (old, unwritten) refl
]

-- Whatever schema a state is written at, it can be read back, and no lease is lost: each keeps its
-- identity, class, weight, process and start, and is charged no less than before, so that the
-- charged weight never falls. From schema 3 on every waiter keeps its place; before, none is kept.
pub read-write-Survives :
    (s : WorkState)
    → (t : WorkState) × (read (some (write s)) ≡ ok t)
      × Both Survives s.leases t.leases
      × (used_weight s.leases ≤ used_weight t.leases)
      × (waiter_operations t.waiters
          ≡ (if leb 3 s.schema_version then waiter_operations s.waiters else []))
unfolding migrate write
read-write-Survives s =
    let (each, sum) = survive_leases s.schema_version s.leases in
    (migrate (write s), read-write_ok s, each, sum, migrate-queue s)

-- A migrated state, by the fields that it takes over.
abbrev state_of :
    ℕ
    → List Lease
    → List Waiter
    → Option ℕ
    → Option ℕ
    → List ℕ
    → List Hold
    → Option Latch
    → WorkState
state_of v ls ws op at queue holds latch = record blank_state {
  schema_version = v;
  leases = ls;
  waiters = ws;
  override_operation = op;
  override_requested_at = at;
  override_queue = queue;
  admission_holds = holds;
  admission_latch = latch;
  legacy_active = ltb v schema_current && (not (is_empty ls) || not (is_empty ws));
}

written_twice : (v : ℕ) → written_version (written_version v) ≡ written_version v
written_twice v = ground arith

-- A field that a schema from `k` on keeps is kept again.
kept_field :
    {A : Type 0} (k v : ℕ) (x d : A)
    → 3 ≤ k
    → k ≤ 8
    → (if leb k (written_version v) then (if leb k v then x else d) else d)
      ≡ (if leb k v then x else d)
kept_field k v x d lo hi = elim (Bool-cases (leb k v)) [
  | inl e ↦ let e' : leb k (written_version v) ≡ true = ground arith in rw (e, e') refl
  | inr e ↦ elim (Bool-cases (leb k (written_version v))) [
    | inl e' ↦ rw (e, e') refl
    | inr e' ↦ rw (e, e') refl
  ]
]

kept_waiters :
    (v : ℕ) (ws : List Waiter)
    → let w = written_version v in
      let one = if ltb w 3 then [] else (if leb 3 v then map (waiter_at v) ws else []) in
      (if ltb w 3 then [] else (if leb 3 w then map (waiter_at w) one else [])) ≡ one
kept_waiters v ws = elim (Bool-cases (leb 3 v)) [
  | inl e ↦
      let e' : leb 3 (written_version v) ≡ true = ground arith in
      let e'' : ltb (written_version v) 3 ≡ false = ground arith in
      rw (e, e', e'')
        (map_between (waiter_at (written_version v)) (waiter_at v) ws (λ w. stable_waiter v w))
  | inr e ↦ let e' : ltb (written_version v) 3 ≡ true = ground arith in rw (e, e') refl
]
  where
    map_between :
        (f g : Waiter → Waiter) (xs : List Waiter)
        → ((x : Waiter) → f (g x) ≡ g x)
        → map f (map g xs) ≡ map g xs
    map_between f g [] h = refl
    map_between f g (x ∷ xs) h = rw (h x, map_between f g xs h) refl

kept_leases :
    (v : ℕ) (ls : List Lease)
    → let w = written_version v in
      let one = map (load_lease w) (map (lease_at v) ls) in
      map (load_lease w) (map (lease_at w) one) ≡ one
kept_leases v [] = refl
kept_leases v (l ∷ ls) = rw (stable_lease v l, kept_leases v ls) refl

migrate_twice : (s : WorkState) → migrate (write (migrate (write s))) ≡ migrate (write s)
unfolding migrate write
migrate_twice s =
    let v = s.schema_version in
    let e : written_version (written_version v) ≡ written_version v = written_twice v in
    rw e (λ i.
      state_of (written_version v) (kept_leases v s.leases i) (kept_waiters v s.waiters i)
        (kept_field 5 v s.override_operation none (omega arith) (omega arith) i)
        (kept_field 5 v s.override_requested_at none (omega arith) (omega arith) i)
        (kept_field 8 v s.override_queue [] (omega arith) (omega arith) i)
        (kept_field 7 v s.admission_holds [] (omega arith) (omega arith) i)
        (kept_field 7 v s.admission_latch none (omega arith) (omega arith) i))

value_or : WorkState → Result WorkState → WorkState
value_or d (ok s) = s
value_or d (err e) = d

-- One reading brings a state to a form that further writing and reading do not change.
pub read-write_stable :
    (s t : WorkState) → read (some (write s)) ≡ ok t → read (some (write t)) ≡ ok t
unfolding value_or
read-write_stable s t h =
    let same : migrate (write s) ≡ t = ap (value_or t) (sym (read-write_ok s) ∙ h) in
    subst (λ r. read (some (write r)) ≡ ok r) same
      (read-write_ok (migrate (write s)) ∙ ap (λ r. ok r) (migrate_twice s))
