-- ===== src/SwapThrash/Advance.antt =====
-- The attribution of an episode and the transitions that a sample makes: attribute, setExternal,
-- transition and advance of sessionpressure/swap_io.go.
use session_pressure.Common.Int.{pos_part}
use session_pressure.Ledger.{milliseconds}
use session_pressure.Common.{
  ℕ, Bool, Option, ◌*◌, if◌then◌else◌, ltb, false, some, none, ◌&&◌, ◌==◌, ◌+◌, true, not, leb,
  ◌||◌, ◌-◌,
}
use session_pressure.Limits.{WorkLimits, normalize_work_limits}
use session_pressure.SwapThrash.{
  ThrashLatch, Sample, Published, Thresholds, Transition, TransitionState, Span, no_latch, no_span,
  span_length, observe, no_cause, agents, unattributed, external, entered, derate_released,
  derate_resumed, released,
}

-- Zero when the policy is strict.
abbrev pub release_window : WorkLimits → ℕ
release_window limits = milliseconds (pos_part limits.external_release_seconds * 1_000)

-- The agents' share of memory, times 100.
abbrev pub agent_share : Sample → WorkLimits → ℕ
agent_share s limits = s.physical_memory * limits.agent_share_percent

abbrev pub coordinated_rss : Sample → ℕ
coordinated_rss s = if s.work_available then s.work_rss else 0

unfoldable pub set_external : Bool → ℕ → ThrashLatch → ThrashLatch
set_external ext now l =
    if ext && not l.is_external
    then (record l { is_external = true; external_since = now })
    else if not ext && l.is_external
    then (record l {
      external_total = record {
        plus = l.external_total.plus + now;
        minus = l.external_total.minus + l.external_since;
      };
      is_external = false;
      external_since = 0;
    })
    else l

-- Leased work at or above the agents' share of memory.
abbrev pub agents_large : Sample → WorkLimits → Bool
agents_large s limits =
    ltb 0 (agent_share s limits) && leb (agent_share s limits) (coordinated_rss s * 100)

-- The cause of an episode.
unfoldable pub attribute : ThrashLatch → Sample → WorkLimits → ThrashLatch
unfolding set_external
attribute l s limits =
    let now = s.timestamp in
    if agents_large s limits
    then (record (set_external false now (record l { quiet_since = 0 })) { cause = agents })
    else let quiet = if l.quiet_since == 0 then now else l.quiet_since in
      let l₁ = record l { quiet_since = quiet } in
      let window = release_window limits in
      if ltb 0 window && (l.proven || leb (quiet + window) now)
      then (record (set_external true now (record l₁ { proven = true })) { cause = external })
      else (record (set_external false now l₁) { cause = unattributed })

unfoldable pub transition : TransitionState → ThrashLatch → Sample → WorkLimits → Transition
transition state l s limits = record {
  state = state;
  resumed = false;
  cause = l.cause;
  since = l.since;
  episode = 0;
  external_time = 0;
  swap_out = s.swap_out;
  swap_used = s.swap_used;
  coordinated_rss = coordinated_rss s;
  coordinated_leases = if s.work_available then s.work_leases else 0;
  agent_share = agent_share s limits;
}

-- A new episode; one that follows an external episode within the window is proven from the start.
unfoldable pub enter : ThrashLatch → ThrashLatch → Sample → WorkLimits → ThrashLatch
enter before l s limits =
    let now = s.timestamp in
    let window = release_window limits in
    record l {
      since = now;
      quiet_since = 0;
      proven =
          ltb 0 window
          && not (before.last_external_release == 0)
          && ltb now (before.last_external_release + window);
      is_external = false;
      external_since = 0;
      external_total = no_span;
      last_external_release = before.last_external_release;
    }

-- The record of an episode that ends.
unfoldable pub closing : ThrashLatch → Sample → WorkLimits → Transition
unfolding transition
closing before s limits =
    let now = s.timestamp in
    let total = before.external_total in
    let spent : Span =
      if before.is_external
      then (record { plus = total.plus + now; minus = total.minus + before.external_since })
      else total in
    record (transition released before s limits) {
      cause = if before.proven then external else before.cause;
      episode = now - before.since;
      external_time = span_length spent;
    }

pub record Advance : Type 0 where
  pub latch : ThrashLatch
  pub published : Published
  pub event : Option Transition

-- What attribution publishes.
abbrev pub publish : ThrashLatch → Published
publish l = record {
  swap_thrash_latched = l.latched;
  swap_thrash_cause = l.cause;
  swap_thrash_since = l.since;
}

-- The three cases of a latched sample: an episode that begins, ends or goes on.
unfoldable pub begin_episode : ThrashLatch → ThrashLatch → Sample → WorkLimits → Advance
unfolding attribute enter transition
begin_episode before l s limits =
    let l' = attribute (enter before l s limits) s limits in
    record { latch = l'; published = publish l'; event = some (transition entered l' s limits) }

unfoldable pub end_episode : ThrashLatch → ThrashLatch → Sample → WorkLimits → Advance
unfolding closing
end_episode before l s limits = record {
  latch = record no_latch {
    hot = l.hot;
    calm = l.calm;
    last_external_release = if before.proven then s.timestamp else 0;
  };
  published = record {
    swap_thrash_latched = false;
    swap_thrash_cause = no_cause;
    swap_thrash_since = 0;
  };
  event = some (closing before s limits);
}

-- The event of an episode that goes on: whether the derate was lifted or put back.
unfoldable pub derate_event : Bool → ThrashLatch → Sample → WorkLimits → Option Transition
unfolding transition
derate_event was l s limits =
    if l.is_external && not was
    then some (transition derate_released l s limits)
    else if not l.is_external && was
    then some (transition derate_resumed l s limits)
    else none

unfoldable pub go_on : ThrashLatch → ThrashLatch → Sample → WorkLimits → Advance
unfolding attribute transition derate_event
go_on before l s limits =
    let l' = attribute l s limits in
    if before.resumed
    then (record {
      latch = record l' { resumed = false };
      published = publish l';
      event = some (record (transition entered l' s limits) { resumed = true });
    })
    else (record {
      latch = l';
      published = publish l';
      event = derate_event before.is_external l' s limits;
    })

-- The case that the verdicts before and after a sample call for.
abbrev pub by_verdict {ℓ} : {A : Type ℓ} → Bool → Bool → A → A → A → A → A
by_verdict was on begins ends goes_on idle =
    if not was && on then begins else if was && not on then ends else if on then goes_on else idle

unfoldable pub follow : ThrashLatch → ThrashLatch → Sample → Published → WorkLimits → Advance
unfolding begin_episode end_episode go_on
follow before l s old limits =
    by_verdict before.latched l.latched (begin_episode before l s limits)
      (end_episode before l s limits) (go_on before l s limits)
      (record {
        latch = l;
        published = record old { swap_thrash_latched = l.latched };
        event = none;
      })

-- One sample: the latch, then the attribution of the episode. `old` is what the snapshot held.
unfoldable pub advance : ℕ → ThrashLatch → Sample → Published → Thresholds → WorkLimits → Advance
unfolding observe follow
advance cpus before s old t raw =
    follow before (observe before s t) s old (normalize_work_limits cpus raw)
