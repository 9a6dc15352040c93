-- ===== src/Machine/Kept.antt =====
-- What each operation of a match does to its record of events.
use driichi.Domain.Mode.{Seat}
use driichi.Domain.Action.{GameAction}
use driichi.Domain.Event.{GameEvent}
use driichi.Decision.Types.{DecisionResolution}
use driichi.Machine.Types.{Engine, MatchMachine, ensure_running}
use driichi.Machine.Steps.{record_outcome}
use driichi.Machine.Play.{call_resolved, chosen_actions, resolve_actions}
use driichi.Machine.Stable.{and_then-holds}
use driichi.Machine.Idle.{call_engine-Idle}
use driichi.Machine.Log.{
  held_log, Settled, full_log, IsLogged, Unrecorded, Settles, record_outcome-Settles,
  Settles-IsLogged,
}
use driichi.Prelude.{
  ◌≡◌, sym, ap, subst, ◌∙◌, inl, inr, none, List, [], ◌∷◌, ◌++◌, length, append_nil, Option-cases,
  ok, arith,
}

module _ {E : Engine} where
  -- The record after an operation: the full log has gained events, the same ones wait to be
  -- persisted, what was shown is shown still, and the invariant holds.
  pub record Kept (m m' : MatchMachine E) : Type 0 where
    pub new : List GameEvent
    pub visible : List GameEvent
    pub all_of : full_log m' ≡ full_log m ++ new
    pub stored : m'.persistence_events ≡ m.persistence_events ++ new
    pub shown : m'.events ≡ m.events ++ visible
    pub logged : IsLogged m'

  -- The parts of a machine that make up its record are those of another.
  abbrev pub SameLog : MatchMachine E → MatchMachine E → Type 0
  SameLog m m' =
      (m'.held ≡ m.held)
      × (m'.events ≡ m.events)
      × (m'.journal_event_count ≡ m.journal_event_count)
      × (m'.persistence_events ≡ m.persistence_events)

  pub SameLog-IsLogged : (m m' : MatchMachine E) → IsLogged m → SameLog m m' → IsLogged m'
  SameLog-IsLogged m m' h (held, shown, counted, stored) = record {
    counted = counted ∙ h.counted ∙ ap length (λ i. sym shown i ++ held_log (sym held i));
    settled = subst Settled (sym held) h.settled;
  }

  pub SameLog-Kept : (m m' : MatchMachine E) → IsLogged m → SameLog m m' → Kept m m'
  SameLog-Kept m m' h (held, shown, counted, stored) = record {
    new = [];
    visible = [];
    all_of = (λ i. shown i ++ held_log (held i)) ∙ sym (append_nil (full_log m));
    stored = stored ∙ sym (append_nil m.persistence_events);
    shown = shown ∙ sym (append_nil m.events);
    logged = SameLog-IsLogged m m' h (held, shown, counted, stored);
  }

  -- Before the hold, the full log is what was shown.
  idle_log : (m : MatchMachine E) → m.held ≡ none → full_log m ≡ m.events
  idle_log m idle = (λ i. m.events ++ held_log (idle i)) ∙ append_nil m.events

  pub Unrecorded-Kept :
      (m m' : MatchMachine E)
      → IsLogged m
      → m.held ≡ none
      → Unrecorded m.events m.persistence_events m'
      → Kept m m'
  Unrecorded-Kept m m' h idle (held, shown, counted, stored) =
      SameLog-Kept m m' h (
        held ∙ sym idle,
        shown,
        counted ∙ ap length (sym (idle_log m idle)) ∙ sym h.counted,
        stored,
      )

  pub Settles-Kept :
      (new : List GameEvent) (m m' : MatchMachine E)
      → IsLogged m
      → m.held ≡ none
      → Settles m.events m.persistence_events new m'
      → Kept m m'
  Settles-Kept new m m' h idle (inl k) = Unrecorded-Kept m m' h idle k
  Settles-Kept new m m' h idle (inr k) = record {
    new = new;
    visible = k.visible;
    all_of = k.all_of ∙ ap (λ l. l ++ new) (sym (idle_log m idle));
    stored = k.stored;
    shown = k.shown;
    logged = Settles-IsLogged m.events m.persistence_events new m' (inr k);
  }

  -- An engine's step was or was not recorded.
  abbrev Resolves : List GameEvent → List GameEvent → MatchMachine E → Type 0
  Resolves es ps m = (new : List GameEvent) × Settles es ps new m

  unresolved : (es ps : List GameEvent) (m : MatchMachine E) → Unrecorded es ps m → Resolves es ps m
  unresolved es ps m h = ([], inl h)

  call_resolved-Idle :
      (es ps : List GameEvent) (m : MatchMachine E) (actions : List (Seat × GameAction))
      → Unrecorded es ps m
      → Unrecorded es ps (call_resolved m actions).0
  unfolding call_resolved
  call_resolved-Idle es ps m [] h = call_engine-Idle es (length es, ps) m _ h
  call_resolved-Idle es ps m ((seat, action) ∷ []) h = call_engine-Idle es (length es, ps) m _ h
  call_resolved-Idle es ps m (a ∷ b ∷ rest) h = call_engine-Idle es (length es, ps) m _ h

  resolve_actions-Resolves :
      (es ps : List GameEvent) (m : MatchMachine E) (r : DecisionResolution)
      → Unrecorded es ps m
      → Resolves es ps (resolve_actions m r).0
  unfolding resolve_actions
  resolve_actions-Resolves es ps m r h =
      let open_m : MatchMachine E = record m { decision = none } in
      and_then-holds (Unrecorded es ps) (Resolves es ps)
        (call_resolved open_m (chosen_actions r.actions)) _
        (call_resolved-Idle es ps open_m (chosen_actions r.actions) h) (unresolved es ps)
        (λ m' outcome _ k.
          and_then-holds (Settles es ps outcome.0) (Resolves es ps) (record_outcome m' outcome) _
            (record_outcome-Settles es ps outcome.0 m' outcome.1 k) (λ n l. (outcome.0, l))
            (λ n _ _ l. (outcome.0, l)))

  pub resolve_actions-Kept :
      (m m' : MatchMachine E) (r : DecisionResolution)
      → IsLogged m
      → m.held ≡ none
      → Unrecorded m.events m.persistence_events m'
      → Kept m (resolve_actions m' r).0
  resolve_actions-Kept m m' r h idle k =
      let (new, s) = resolve_actions-Resolves m.events m.persistence_events m' r k in
      Settles-Kept new m (resolve_actions m' r).0 h idle s

  -- A check that lets a call pass has seen no held results.
  pub running-Idle : (m : MatchMachine E) (u : Unit {0}) → ensure_running m ≡ ok u → m.held ≡ none
  unfolding ensure_running
  running-Idle m u h = elim (Option-cases m.held) [
    | inl e ↦ e
    | inr (hold, e) ↦ absurd (ground arith)
  ]
