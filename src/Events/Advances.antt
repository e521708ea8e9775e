-- ===== src/Events/Advances.antt =====
-- The rows of sessionpressure/workevent.go before the end of an operation, as steps of its stages.
use session_pressure.Events.Rows.{Ordered, Followed, ClosedAs}
use session_pressure.Common.{
  Option, ℕ, ◌≡◌, false, is_some, inl, ◌&&◌, inr, subst, not, clash, arith, true, some, refl, same?,
  ◌∙◌, none, ap, sym,
}
use session_pressure.Events.Stages.{
  Stage, At, Step, stage_order, at_start, Holding, back_under_lease, running, under_lease,
  in_reservation, stage_terminal, in_queue,
}
use session_pressure.Events.Places.{
  queued_at, open_at, acquired_at, reacquired_at, started_at, before_lease_open, reserved_at,
  Marks_more, seen_now, open_terminal, may_reserve_open, may_start_open,
}
use session_pressure.Events.Lifecycle.{
  Lifecycle, is_terminal_event, below, work_event_order, is_pressure_cycle,
}
use session_pressure.Events.{
  WorkEventType, WorkEvent, same_type, override_requested, queued, acquired, reserved, reacquired,
  started,
}

pub ranked :
    (t : WorkEventType) (s : Lifecycle) (last : Option ℕ)
    → same_type t override_requested ≡ false
    → Ordered t s last
    → ((below (work_event_order t) s.last_order && not (is_pressure_cycle s t)) ≡ false)
      × (last ≡ some (work_event_order t))
ranked t s last n (inl (o, c, q)) = absurd (clash (same_type t override_requested) o n)
ranked t s last n (inr (o, c, q)) = (c, q)

pub annotated :
    (s : Lifecycle) (last : Option ℕ)
    → Ordered override_requested s last
    → (is_some s.terminal ≡ false) × (last ≡ s.last_order)
annotated s last (inl (o, c, q)) = (c, q)
annotated s last (inr (o, c, q)) = absurd (clash true refl o)

pub unended :
    (t : WorkEventType) (e : WorkEvent) (old new : Option WorkEvent)
    → is_terminal_event t ≡ false
    → ClosedAs t e old new
    → new ≡ old
unended t e old new n (inl (o, q)) = q
unended t e old new n (inr (o, q)) = absurd (clash (is_terminal_event t) o n)

module _ (a : Stage) (s r : Lifecycle) (e : WorkEvent) (at : At a s) where
  pub queued_step : Followed queued s r e → e.event ≡ queued → (b : Stage) × Step a e b × At b r
  queued_step f q =
      let (low, last) = ranked queued s r.last_order refl f.ordered in
      let low' : below 0 (stage_order a) ≡ false =
        subst (λ (o : Option ℕ). below 0 o ≡ false) at.order (ground (arith, low)) in
      let start : a ≡ at_start = queued_at a s.seen at.marks (ground (arith, f.fresh)) low' in
      let held = subst (λ (x : Stage). Holding x s.is_reserved) start at.holding in
      let none_yet : s.terminal ≡ none = at.end ∙ ap stage_terminal start in
      (
        in_queue,
        subst (λ (x : Stage). Step x e in_queue) (sym start) (Step.enqueues e q),
        record {
          order = last;
          holding = f.turned ∙ held;
          marks = rw f.marked (seen_now queued s.seen);
          end = unended queued e s.terminal r.terminal refl f.closed_as ∙ none_yet;
        },
      )

  pub acquired_step :
      Followed acquired s r e → e.event ≡ acquired → (b : Stage) × Step a e b × At b r
  acquired_step f q =
      let (low, last) = ranked acquired s r.last_order refl f.ordered in
      let low' = subst (λ (o : Option ℕ). below 2 o ≡ false) at.order (ground (arith, low)) in
      let before = acquired_at a s.seen at.marks (ground (arith, f.fresh)) low' in
      let (opened, held) = before_lease_open a s.is_reserved at.holding before in
      (
        under_lease,
        Step.leases a e before q,
        record {
          order = last;
          holding = f.turned ∙ held;
          marks = rw f.marked (seen_now acquired s.seen);
          end =
              unended acquired e s.terminal r.terminal refl f.closed_as
              ∙ at.end
              ∙ open_terminal a opened;
        },
      )

  pub reserved_step :
      Followed reserved s r e → e.event ≡ reserved → (b : Stage) × Step a e b × At b r
  reserved_step f q =
      let (low, last) = ranked reserved s r.last_order refl f.ordered in
      let low' =
        subst (λ (o : Option ℕ). (below 3 o && not (same? o (some 4) && not s.is_reserved)) ≡ false)
          at.order low in
      let may = reserved_at a s.is_reserved at.holding f.turned.0 low' in
      (
        in_reservation,
        Step.reserves a e may q,
        record {
          order = last;
          holding = f.turned.1;
          marks = tt;
          end =
              unended reserved e s.terminal r.terminal refl f.closed_as
              ∙ at.end
              ∙ open_terminal a (may_reserve_open a may);
        },
      )

  pub reacquired_step :
      Followed reacquired s r e → e.event ≡ reacquired → (b : Stage) × Step a e b × At b r
  reacquired_step f q =
      let (low, last) = ranked reacquired s r.last_order refl f.ordered in
      let low' = subst (λ (o : Option ℕ). below 4 o ≡ false) at.order (ground (arith, low)) in
      let there = reacquired_at a s.is_reserved at.holding f.turned.0 low' in
      (
        back_under_lease,
        subst (λ (x : Stage). Step x e back_under_lease) (sym there) (Step.takes_back e q),
        record {
          order = last;
          holding = f.turned.1;
          marks = tt;
          end =
              unended reacquired e s.terminal r.terminal refl f.closed_as
              ∙ at.end
              ∙ ap stage_terminal there;
        },
      )

  pub started_step : Followed started s r e → e.event ≡ started → (b : Stage) × Step a e b × At b r
  started_step f q =
      let (low, last) = ranked started s r.last_order refl f.ordered in
      let low' = subst (λ (o : Option ℕ). below 5 o ≡ false) at.order (ground (arith, low)) in
      let may = started_at a s.seen at.marks (ground (arith, f.fresh)) low' in
      (
        running,
        Step.starts a e may q,
        record {
          order = last;
          holding = tt;
          marks = rw f.marked (seen_now started s.seen);
          end =
              unended started e s.terminal r.terminal refl f.closed_as
              ∙ at.end
              ∙ open_terminal a (may_start_open a may);
        },
      )

  pub annotated_step :
      Followed override_requested s r e
      → e.event ≡ override_requested
      → (b : Stage) × Step a e b × At b r
  annotated_step f q =
      let (free, last) = annotated s r.last_order f.ordered in
      let opened = open_at a (subst (λ (o : Option WorkEvent). is_some o ≡ false) at.end free) in
      (
        a,
        Step.annotates a e opened q,
        record {
          order = last ∙ at.order;
          holding = rw f.turned at.holding;
          marks = rw f.marked (Marks_more a override_requested s.seen at.marks);
          end = unended override_requested e s.terminal r.terminal refl f.closed_as ∙ at.end;
        },
      )
