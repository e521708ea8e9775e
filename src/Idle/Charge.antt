-- ===== src/Idle/Charge.antt =====
-- The detector and the ledger agree on what is charged, sessionpressure/workidle.go.
use session_pressure.Ledger.{WorkState, Lease}
use session_pressure.Ledger.Ownership.{
  find_lease, park_lease, update_lease, is_park_pinned, park_stamp,
}
use session_pressure.Common.{
  ℕ, Bool, none, ◌≡◌, some, List, true, is_some, ◌∷◌, Bool-cases, Option-cases, ◌==◌, inl, ap,
  false, Option, inr, [], ◌&&◌, refl, ◌∙◌, ◌-◌, leb, if◌then◌else◌, not, arith, ◌+◌, sym, subst,
}
use session_pressure.Idle.{
  Detector, Activity, Turn, parks, wakes, no_turn, observe_activity, judge, set_parked, revert,
  is_working, is_light, settle_turn, watch, is_ok,
}

abbrev pub StampedAs : Option Lease → Bool → Type 0
StampedAs none parked = Unit {0}
StampedAs (some l) parked = is_some l.parked_at ≡ parked

-- The lease, if it is there, is parked in the ledger exactly if the flag says so.
abbrev pub ParkedAs : ℕ → Bool → WorkState → Type 0
ParkedAs id parked s = StampedAs (find_lease id s.leases) parked

find_lease-update :
    (id : ℕ) (f : Lease → Lease) (ls : List Lease) (l : Lease)
    → ((k : Lease) → (f k).id ≡ k.id)
    → find_lease id ls ≡ some l
    → find_lease id (update_lease id f ls) ≡ some (f l)
unfolding find_lease update_lease
find_lease-update id f [] l same h = cc
find_lease-update id f (k ∷ ls) l same h = elim (Bool-cases (k.id == id)) [
  | inl e ↦
      let here : some k ≡ some l = rw e at h in
      let e' : ((f k).id == id) ≡ true = ap (λ a. a == id) (same k) ∙ e in
      rw (e, find_lease, e')
        (ap (λ m. elim m as (λ _. Option Lease) [ none ↦ none | some x ↦ some (f x) ]) here)
  | inr e ↦ rw (e, find_lease, e) (find_lease-update id f ls l same (rw e at h))
]

park_stamp_lem :
    (parked : Bool) (now : ℕ) (l : Lease) → is_some (park_stamp parked now l).parked_at ≡ parked
park_stamp_lem true now l = elim (Option-cases l.parked_at) [
  | inl e ↦ rw e refl
  | inr (at, e) ↦ rw e refl
]
park_stamp_lem false now l = refl

-- A mutation that succeeded parked the lease or charges it again.
park_lease_done :
    (id : ℕ) (parked : Bool) (now : ℕ) (s : WorkState)
    → is_ok (park_lease id parked now s).1 ≡ true
    → (l : Lease) × (find_lease id (park_lease id parked now s).0.leases ≡ some l)
      × (is_some l.parked_at ≡ parked)
unfolding park_lease
park_lease_done id parked now s h = elim (Option-cases (find_lease id s.leases)) [
  | inl e ↦ let h' : false ≡ true = rw (e, park_lease) at h in cc
  | inr (l, e) ↦ elim (Bool-cases (parked && is_park_pinned s)) [
    | inl e' ↦ let h' : false ≡ true = rw (e, park_lease, e') at h in cc
    | inr e' ↦
        rw (e, park_lease, e')
          (
            park_stamp parked now l,
            find_lease-update id (park_stamp parked now) s.leases l (λ k. refl) e,
            park_stamp_lem parked now l,
          )
  ]
]

-- What a turn says of the detector before and after it.
abbrev Turned : Bool → Detector × Turn → Type 0
Turned before (after, no_turn) = after.parked ≡ before
Turned before (after, parks) = (before ≡ false) × (after.parked ≡ true)
Turned before (after, wakes) = (before ≡ true) × (after.parked ≡ false)

Turned-if :
    (choice before : Bool) (x y : Detector × Turn)
    → Turned before x
    → Turned before y
    → Turned before (if choice then x else y)
Turned-if true before x y hx hy = hx
Turned-if false before x y hx hy = hy

set_parked-Turned :
    (now : ℕ) (parked : Bool) (d : Detector) → Turned d.parked (set_parked now parked d)
unfolding set_parked
set_parked-Turned now true d = elim (Bool-cases d.parked) [
  | inl e ↦ rw e refl
  | inr e ↦ rw e (refl, refl)
]
set_parked-Turned now false d = elim (Bool-cases d.parked) [
  | inl e ↦ rw e (refl, refl)
  | inr e ↦ rw e refl
]

still :
    (choice : Bool) (x y : Detector)
    → x.parked ≡ y.parked
    → (if choice then x else y).parked ≡ y.parked
still true x y h = h
still false x y h = refl

judge-Turned :
    (now elapsed : ℕ) (sample : Activity) (d : Detector)
    → Turned d.parked (judge now elapsed sample d)
unfolding judge
judge-Turned now elapsed sample d =
    let cpu = sample.cpu_ns - d.last.cpu_ns in
    let pageins = sample.pageins - d.last.pageins in
    let d₁ = record d { last = sample; last_at = now } in
    let d₂ = record d₁ { idle_since = now } in
    let idle = not d.parked && leb (d.idle_since + d.idle_after) now in
    let parking : Detector × Turn = if idle then set_parked now true d₁ else (d₁, no_turn) in
    let light : Detector × Turn = (if d.parked then d₁ else d₂, no_turn) in
    Turned-if (is_working cpu pageins elapsed) d.parked (set_parked now false d₂)
      (if is_light cpu pageins elapsed then light else parking) (set_parked-Turned now false d₂)
      (Turned-if (is_light cpu pageins elapsed) d.parked light parking (still d.parked d₁ d₂ refl) (
        Turned-if idle d.parked (set_parked now true d₁) (d₁, no_turn)
          (set_parked-Turned now true d₁) (refl {a = d.parked})))

observe_activity-Turned :
    (now : ℕ) (sample : Option Activity) (d : Detector)
    → Turned d.parked (observe_activity now sample d)
unfolding observe_activity
observe_activity-Turned now none d =
    set_parked-Turned now false (record d { have_last = false; idle_since = 0 })
observe_activity-Turned now (some sample) d =
    let first = record d {
      last = sample;
      last_at = now;
      have_last = true;
      idle_since = if d.idle_since == 0 then now else d.idle_since;
    } in
    let judged = judge now (now - d.last_at) sample d in
    Turned-if (not d.have_last) d.parked (first, no_turn)
      (if leb now d.last_at then (d, no_turn) else judged) (refl {a = d.parked})
      (Turned-if (leb now d.last_at) d.parked (d, no_turn) judged (refl {a = d.parked})
        (judge-Turned now (now - d.last_at) sample d))

-- A turn that is made durable, or undone.
made_durable :
    (id now : ℕ) (parked reaches before : Bool) (s : WorkState) (after undone : Detector)
    → after.parked ≡ parked
    → undone.parked ≡ before
    → ParkedAs id before s
    → let (s', result) = park_lease id parked now s in
      let out : Detector × WorkState =
        if reaches && is_ok result then (after, s') else (undone, s) in
      ParkedAs id out.0.parked out.1
made_durable id now parked reaches before s after undone turned back agrees =
    elim (Bool-cases (reaches && is_ok (park_lease id parked now s).1)) [
      | inl e ↦
          let (l, found, charged) = park_lease_done id parked now s (ground arith) in
          rw e (subst (λ o. StampedAs o after.parked) (sym found) (charged ∙ sym turned))
      | inr e ↦ rw e (subst (λ b. ParkedAs id b s) (sym back) agrees)
    ]

settle_turn-ParkedAs :
    (id now : ℕ) (reaches before : Bool) (s : WorkState) (m : Detector × Turn)
    → Turned before m
    → ParkedAs id before s
    → let out = settle_turn id now reaches s m in ParkedAs id out.0.parked out.1
unfolding settle_turn revert
settle_turn-ParkedAs id now reaches before s (d, no_turn) t h =
    subst (λ b. ParkedAs id b s) (sym t) h
settle_turn-ParkedAs id now reaches before s (d, parks) (was, is) h =
    made_durable id now true reaches before s d (revert parks d) is (sym was) h
settle_turn-ParkedAs id now reaches before s (d, wakes) (was, is) h =
    made_durable id now false reaches before s d (revert wakes d) is (sym was) h

-- Whatever a round reads, and whether or not its turn can be written, afterwards the ledger charges
-- the lease exactly while the detector takes it for active, if it did so before.
pub watch-ParkedAs :
    (id now : ℕ) (reaches : Bool) (sample : Option Activity) (d : Detector) (s : WorkState)
    → ParkedAs id d.parked s
    → let out = watch id now reaches sample d s in ParkedAs id out.0.parked out.1
unfolding watch
watch-ParkedAs id now reaches sample d s h =
    settle_turn-ParkedAs id now reaches d.parked s (observe_activity now sample d)
      (observe_activity-Turned now sample d) h
