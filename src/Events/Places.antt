-- ===== src/Events/Places.antt =====
-- At which stages a row of sessionpressure/workevent.go may stand, by its type.
use session_pressure.Common.{
  Bool, List, is_some, false, true, ◌≡◌, some, ◌∷◌, none, clash, arith, ◌&&◌, refl, not, same?, sym,
}
use session_pressure.Events.{WorkEventType, queued, acquired, started, expired}
use session_pressure.Events.Lifecycle.{has_seen, below}
use session_pressure.Events.Stages.{
  Holding, Marks, Stage, at_start, back_under_lease, before_lease, closed, ended, in_queue,
  in_reservation, is_open, may_reserve, may_start, running, stage_order, stage_terminal,
  under_lease,
}

pub queued_at :
    (a : Stage) (ts : List WorkEventType)
    → Marks a ts
    → has_seen queued ts ≡ false
    → below 0 (stage_order a) ≡ false
    → a ≡ at_start
queued_at at_start ts m d h = refl
queued_at in_queue ts m d h = absurd (clash (has_seen queued ts) m d)
queued_at under_lease ts m d h = absurd (clash true refl h)
queued_at in_reservation ts m d h = absurd (clash true refl h)
queued_at back_under_lease ts m d h = absurd (clash true refl h)
queued_at running ts m d h = absurd (clash true refl h)
queued_at (ended f) ts m d h = absurd (clash true refl h)
queued_at (closed f) ts m d h = absurd (clash true refl h)

pub acquired_at :
    (a : Stage) (ts : List WorkEventType)
    → Marks a ts
    → has_seen acquired ts ≡ false
    → below 2 (stage_order a) ≡ false
    → before_lease a ≡ true
acquired_at at_start ts m d h = refl
acquired_at in_queue ts m d h = refl
acquired_at under_lease ts m d h = absurd (clash (has_seen acquired ts) m d)
acquired_at in_reservation ts m d h = absurd (clash true refl h)
acquired_at back_under_lease ts m d h = absurd (clash true refl h)
acquired_at running ts m d h = absurd (clash true refl h)
acquired_at (ended f) ts m d h = absurd (clash true refl h)
acquired_at (closed f) ts m d h = absurd (clash true refl h)

pub reserved_at :
    (a : Stage) (held : Bool)
    → Holding a held
    → held ≡ false
    → (below 3 (stage_order a) && not (same? (stage_order a) (some 4) && not held)) ≡ false
    → may_reserve a ≡ true
reserved_at at_start held m d h = refl
reserved_at in_queue held m d h = refl
reserved_at under_lease held m d h = refl
reserved_at in_reservation held m d h = absurd (clash held m d)
reserved_at back_under_lease held m d h = refl
reserved_at running held m d h = absurd (clash true refl h)
reserved_at (ended f) held m d h = absurd (clash true refl h)
reserved_at (closed f) held m d h = absurd (clash true refl h)

pub reacquired_at :
    (a : Stage) (held : Bool)
    → Holding a held
    → held ≡ true
    → below 4 (stage_order a) ≡ false
    → a ≡ in_reservation
reacquired_at at_start held m d h = absurd (clash held d m)
reacquired_at in_queue held m d h = absurd (clash held d m)
reacquired_at under_lease held m d h = absurd (clash held d m)
reacquired_at in_reservation held m d h = refl
reacquired_at back_under_lease held m d h = absurd (clash held d m)
reacquired_at running held m d h = absurd (clash true refl h)
reacquired_at (ended f) held m d h = absurd (clash true refl h)
reacquired_at (closed f) held m d h = absurd (clash true refl h)

pub started_at :
    (a : Stage) (ts : List WorkEventType)
    → Marks a ts
    → has_seen started ts ≡ false
    → below 5 (stage_order a) ≡ false
    → may_start a ≡ true
started_at at_start ts m d h = refl
started_at in_queue ts m d h = refl
started_at under_lease ts m d h = refl
started_at in_reservation ts m d h = refl
started_at back_under_lease ts m d h = refl
started_at running ts m d h = absurd (clash (has_seen started ts) m d)
started_at (ended f) ts m d h = absurd (clash true refl h)
started_at (closed f) ts m d h = absurd (clash true refl h)

pub open_at : (a : Stage) → is_some (stage_terminal a) ≡ false → is_open a ≡ true
open_at at_start h = refl
open_at in_queue h = refl
open_at under_lease h = refl
open_at in_reservation h = refl
open_at back_under_lease h = refl
open_at running h = refl
open_at (ended f) h = absurd (clash true refl h)
open_at (closed f) h = absurd (clash true refl h)

pub seen_more :
    (u t : WorkEventType) (ts : List WorkEventType)
    → has_seen u ts ≡ true
    → has_seen u (t ∷ ts) ≡ true
seen_more u t ts h = ground arith

pub seen_now : (t : WorkEventType) (ts : List WorkEventType) → has_seen t (t ∷ ts) ≡ true
seen_now t ts = ground arith

pub Marks_more :
    (a : Stage) (t : WorkEventType) (ts : List WorkEventType) → Marks a ts → Marks a (t ∷ ts)
Marks_more at_start t ts m = tt
Marks_more in_queue t ts m = ground (arith, m)
Marks_more under_lease t ts m = ground (arith, m)
Marks_more in_reservation t ts m = tt
Marks_more back_under_lease t ts m = tt
Marks_more running t ts m = ground (arith, m)
Marks_more (ended e) t ts m = (seen_more e.event t ts m.0, m.1)
Marks_more (closed e) t ts m = (seen_more e.event t ts m.0, seen_more expired t ts m.1, m.2, m.3)

pub open_terminal : (a : Stage) → is_open a ≡ true → stage_terminal a ≡ none
open_terminal at_start h = refl
open_terminal in_queue h = refl
open_terminal under_lease h = refl
open_terminal in_reservation h = refl
open_terminal back_under_lease h = refl
open_terminal running h = refl
open_terminal (ended f) h = absurd (clash true refl (sym h))
open_terminal (closed f) h = absurd (clash true refl (sym h))

pub before_lease_open :
    (a : Stage) (held : Bool)
    → Holding a held
    → before_lease a ≡ true
    → (is_open a ≡ true) × (held ≡ false)
before_lease_open at_start held m h = (refl, m)
before_lease_open in_queue held m h = (refl, m)
before_lease_open under_lease held m h = absurd (clash true refl (sym h))
before_lease_open in_reservation held m h = absurd (clash true refl (sym h))
before_lease_open back_under_lease held m h = absurd (clash true refl (sym h))
before_lease_open running held m h = absurd (clash true refl (sym h))
before_lease_open (ended f) held m h = absurd (clash true refl (sym h))
before_lease_open (closed f) held m h = absurd (clash true refl (sym h))

pub may_reserve_open : (a : Stage) → may_reserve a ≡ true → is_open a ≡ true
may_reserve_open at_start h = refl
may_reserve_open in_queue h = refl
may_reserve_open under_lease h = refl
may_reserve_open in_reservation h = refl
may_reserve_open back_under_lease h = refl
may_reserve_open running h = absurd (clash true refl (sym h))
may_reserve_open (ended f) h = absurd (clash true refl (sym h))
may_reserve_open (closed f) h = absurd (clash true refl (sym h))

pub may_start_open : (a : Stage) → may_start a ≡ true → is_open a ≡ true
may_start_open at_start h = refl
may_start_open in_queue h = refl
may_start_open under_lease h = refl
may_start_open in_reservation h = refl
may_start_open back_under_lease h = refl
may_start_open running h = absurd (clash true refl (sym h))
may_start_open (ended f) h = absurd (clash true refl (sym h))
may_start_open (closed f) h = absurd (clash true refl (sym h))
