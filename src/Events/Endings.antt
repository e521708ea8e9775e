-- ===== src/Events/Endings.antt =====
-- The terminal rows of sessionpressure/workevent.go, as steps of the stages of an operation.
use session_pressure.Events.Advances.{ranked}
use session_pressure.Events.Types.{
  terminal_last, same_type→eq, stage_of_terminal, late_parts, child_end_terminal,
}
use session_pressure.Events.Rows.{Followed, ClosedAs}
use session_pressure.Common.{
  Option, ◌≡◌, false, is_some, inl, inr, subst, clash, arith, true, some, refl, ◌∙◌, none, ap, sym,
}
use session_pressure.Events.Stages.{Stage, At, Step, ended, Marks, closed}
use session_pressure.Events.Places.{open_at, seen_now, seen_more}
use session_pressure.Events.Lifecycle.{
  Lifecycle, is_terminal_event, is_late_terminal, is_reconciliation_expiration, has_seen,
}
use session_pressure.Events.{WorkEventType, WorkEvent, same_type, expired}

module _ (a : Stage) (s r : Lifecycle) (e : WorkEvent) (at : At a s) where
  -- The first terminal row ends an open operation.
  ending_step :
      (t : WorkEventType)
      → is_terminal_event t ≡ true
      → s.terminal ≡ none
      → r.terminal ≡ some e
      → Followed t s r e
      → e.event ≡ t
      → (b : Stage) × Step a e b × At b r
  ending_step t y o n f q =
      let (other, sixth) = terminal_last t y in
      let (low, last) = ranked t s r.last_order other f.ordered in
      let opened =
        open_at a (subst (λ (x : Option WorkEvent). is_some x ≡ false) (sym o ∙ at.end) refl) in
      (
        ended e,
        Step.ends a e opened (rw q y),
        record {
          order = last ∙ ap some sixth;
          holding = tt;
          marks = (
            subst (λ (u : WorkEventType). has_seen u r.seen ≡ true) (sym q)
                (rw f.marked (seen_now t s.seen)),
            (rw q y),
          );
          end = n;
        },
      )

  -- An expiration by the reconciler after a real outcome.
  cleaning_step :
      (first : WorkEvent)
      → s.terminal ≡ some first
      → same_type first.event expired ≡ false
      → is_reconciliation_expiration e.outcome ≡ true
      → r.terminal ≡ s.terminal
      → Followed expired s r e
      → e.event ≡ expired
      → (b : Stage) × Step a e b × At b r
  cleaning_step first o real why n f q =
      let (low, last) = ranked expired s r.last_order refl f.ordered in
      elim (stage_of_terminal a first (sym at.end ∙ o)) [
        | inl there ↦
            let marks = subst (λ (x : Stage). Marks x s.seen) there at.marks in
            (
              closed first,
              subst (λ (x : Stage). Step x e (closed first)) (sym there)
                  (Step.cleans_up first e real (rw q refl) why),
              record {
                order = last;
                holding = tt;
                marks = (
                  (rw f.marked (seen_more first.event expired s.seen marks.0)),
                  (rw f.marked (seen_now expired s.seen)),
                  marks.1,
                  real,
                );
                end = n ∙ o;
              },
            )
        | inr there ↦
            let marks = subst (λ (x : Stage). Marks x s.seen) there at.marks in
            absurd (clash (has_seen expired s.seen) marks.1 (ground (arith, f.fresh)))
      ]

  -- The real outcome of a lease that the reconciler had given up.
  correcting_step :
      (t : WorkEventType) (first : WorkEvent)
      → is_terminal_event t ≡ true
      → s.terminal ≡ some first
      → is_late_terminal first e ≡ true
      → r.terminal ≡ some e
      → Followed t s r e
      → e.event ≡ t
      → (b : Stage) × Step a e b × At b r
  correcting_step t first y o late n f q =
      let (other, sixth) = terminal_last t y in
      let (low, last) = ranked t s r.last_order other f.ordered in
      let (gone, child) = late_parts first e late in
      elim (stage_of_terminal a first (sym at.end ∙ o)) [
        | inl there ↦
            let marks = subst (λ (x : Stage). Marks x s.seen) there at.marks in
            let was = same_type→eq first.event expired gone in
            let old = subst (λ (u : WorkEventType). has_seen u s.seen ≡ true) was marks.0 in
            (
              closed e,
              subst (λ (x : Stage). Step x e (closed e)) (sym there) (Step.corrects first e late),
              record {
                order = last ∙ ap some sixth;
                holding = tt;
                marks = (
                  subst (λ (u : WorkEventType). has_seen u r.seen ≡ true) (sym q)
                      (rw f.marked (seen_now t s.seen)),
                  (rw f.marked (seen_more expired t s.seen old)),
                  (rw q y),
                  child_end_terminal e.event child,
                );
                end = n;
              },
            )
        | inr there ↦
            let marks = subst (λ (x : Stage). Marks x s.seen) there at.marks in
            absurd (clash (same_type first.event expired) gone marks.3)
      ]

  pub terminal_step :
      (t : WorkEventType)
      → is_terminal_event t ≡ true
      → Followed t s r e
      → e.event ≡ t
      → ClosedAs t e s.terminal r.terminal
      → (b : Stage) × Step a e b × At b r
  terminal_step t y f q (inl (o, n)) = absurd (clash (is_terminal_event t) y o)
  terminal_step t y f q (inr (_, inl (o, n))) = ending_step t y o n f q
  terminal_step t y f q (inr (_, inr (first, o, inl (x, real, why, n)))) =
      let was = same_type→eq t expired x in
      cleaning_step first o real why n (subst (λ (u : WorkEventType). Followed u s r e) was f)
        (q ∙ was)
  terminal_step t y f q (inr (_, inr (first, o, inr (late, n)))) =
      correcting_step t first y o late n f q
