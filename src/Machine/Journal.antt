-- ===== src/Machine/Journal.antt =====
-- The record of events over any sequence of calls. `Call` is a call of a public operation that
-- changes the match.
use driichi.Domain.Mode.{Seat, GameMode}
use driichi.Domain.Event.{GameEvent}
use driichi.Domain.Roster.{Participant}
use driichi.Decision.Clock.{Instant, TimeControl, TimingConfig}
use driichi.Decision.Types.{DecisionId, ActionId, DecisionError}
use driichi.Machine.Types.{Engine, MatchMachine, MatchError, invalid_participants, match_aborted}
use driichi.Machine.Seats.{disconnect, reconnect, set_permanent_auto, set_time_control, set_timing}
use driichi.Machine.Steps.{publish_kyoku_step, release_kyoku, take_persistence_events}
use driichi.Machine.Play.{
  legal_actions, current_decision, submit_action, resolve_expired, started, new_internal,
}
use driichi.Machine.Ranking.{validate_participants}
use driichi.Machine.Log.{held_log, full_log, IsLogged, Idle-IsLogged}
use driichi.Machine.Kept.{Kept, SameLog-Kept}
use driichi.Domain.Action.{GameAction}
use driichi.Machine.Direct.{apply}
use driichi.Projection.Views.{Audience}
use driichi.Machine.Show.{project}
use driichi.Machine.Shown.{project-Kept}
use driichi.Machine.Calls.{apply-Kept, submit_action-Kept, resolve_expired-Kept}
use driichi.Machine.Setters.{
  unchanged, legal_actions-Kept, current_decision-Kept, disconnect-Kept, reconnect-Kept,
  set_permanent_auto-Kept,
}
use driichi.Machine.Publish.{publish_kyoku_step-Kept, release_kyoku-Kept}
use driichi.Prelude.{
  ℕ, ◌≡◌, refl, sym, ap, subst, ◌∙◌, Bool, none, List, [], ◌∷◌, ◌++◌, String, length, append_nil,
  append_assoc, bind-ok, map_err, if◌then◌else◌, Outcome, ok,
}

pub data Call : Type 0 where
  publish : ℕ → Call
  release : Call
  look_up : Seat → Call
  act : Seat → GameAction → Call
  decide : Instant → Call
  watch : Audience → Instant → Call
  submit : Seat → DecisionId → ActionId → Instant → Call
  expire : Instant → Call
  lose : Seat → Instant → Call
  return : Seat → Instant → Call
  automate : Seat → Call
  control : TimeControl → Call
  time : TimingConfig → Call
  store : Call

module _ {E : Engine} where
  -- The machine after a call, and the events that the call hands over for persistence.
  unfoldable pub perform :
      (DecisionError → String) → MatchMachine E → Call → MatchMachine E × List GameEvent
  perform text m (publish step_index) = ((publish_kyoku_step m step_index).0, [])
  perform text m release = ((release_kyoku m).0, [])
  perform text m (look_up seat) = ((legal_actions m seat).0, [])
  perform text m (act seat action) = ((apply m seat action).0, [])
  perform text m (watch audience now) = ((project text m audience now).0, [])
  perform text m (decide now) = ((current_decision text m now).0, [])
  perform text m (submit seat id action now) = ((submit_action text m seat id action now).0, [])
  perform text m (expire now) = ((resolve_expired text m now).0, [])
  perform text m (lose seat now) = ((disconnect m seat now).0, [])
  perform text m (return seat now) = ((reconnect m seat now).0, [])
  perform text m (automate seat) = ((set_permanent_auto m seat).0, [])
  perform text m (control c) = (set_time_control m c, [])
  perform text m (time t) = (set_timing m t, [])
  perform text m store = take_persistence_events m

  unfoldable pub replay :
      (DecisionError → String) → MatchMachine E → List Call → MatchMachine E × List GameEvent
  replay text m [] = (m, [])
  replay text m (c ∷ cs) =
      let (m', batch) = perform text m c in
      let (m'', batches) = replay text m' cs in (m'', batch ++ batches)

  -- A machine's log is kept, where a batch of events was handed over.
  pub record Stored (m : MatchMachine E) (after : MatchMachine E × List GameEvent) : Type 0 where
    pub new : List GameEvent
    pub visible : List GameEvent
    pub all_of : full_log after.0 ≡ full_log m ++ new
    pub stored : after.1 ++ after.0.persistence_events ≡ m.persistence_events ++ new
    pub shown : after.0.events ≡ m.events ++ visible
    pub logged : IsLogged after.0

  Kept-Stored : (m m' : MatchMachine E) → Kept m m' → Stored m (m', [])
  Kept-Stored m m' k = record {
    new = k.new;
    visible = k.visible;
    all_of = k.all_of;
    stored = k.stored;
    shown = k.shown;
    logged = k.logged;
  }

  module _ (m : MatchMachine E) (h : IsLogged m) where
    perform-Stored : (text : DecisionError → String) (c : Call) → Stored m (perform text m c)
    unfolding perform take_persistence_events set_time_control set_timing
    perform-Stored text (publish i) = Kept-Stored m _ (publish_kyoku_step-Kept m i h)
    perform-Stored text release = Kept-Stored m _ (release_kyoku-Kept m h)
    perform-Stored text (look_up seat) = Kept-Stored m _ (legal_actions-Kept m h seat)
    perform-Stored text (act seat action) = Kept-Stored m _ (apply-Kept m h seat action)
    perform-Stored text (watch audience now) = Kept-Stored m _ (project-Kept m h text audience now)
    perform-Stored text (decide now) = Kept-Stored m _ (current_decision-Kept m h text now)
    perform-Stored text (submit seat id action now) =
        Kept-Stored m _ (submit_action-Kept m h text seat id action now)
    perform-Stored text (expire now) = Kept-Stored m _ (resolve_expired-Kept m h text now)
    perform-Stored text (lose seat now) = Kept-Stored m _ (disconnect-Kept m h seat now)
    perform-Stored text (return seat now) = Kept-Stored m _ (reconnect-Kept m h seat now)
    perform-Stored text (automate seat) = Kept-Stored m _ (set_permanent_auto-Kept m h seat)
    perform-Stored text (control c) =
        Kept-Stored m (set_time_control m c) (SameLog-Kept m _ h (refl, refl, refl, refl))
    perform-Stored text (time t) =
        Kept-Stored m (set_timing m t) (SameLog-Kept m _ h (refl, refl, refl, refl))
    perform-Stored text store = record {
      new = [];
      visible = [];
      all_of = sym (append_nil (full_log m));
      stored = refl;
      shown = sym (append_nil m.events);
      logged = record { counted = h.counted; settled = h.settled };
    }

  replay-Stored :
      (text : DecisionError → String) (m : MatchMachine E) (cs : List Call)
      → IsLogged m
      → Stored m (replay text m cs)
  unfolding replay
  replay-Stored text m [] h = Kept-Stored m m (unchanged m h)
  replay-Stored text m (c ∷ cs) h =
      let a : Stored m (perform text m c) = perform-Stored m h text c in
      let b : Stored (perform text m c).0 (replay text (perform text m c).0 cs) =
        replay-Stored text (perform text m c).0 cs a.logged in
      record {
        new = a.new ++ b.new;
        visible = a.visible ++ b.visible;
        all_of = b.all_of ∙ ap (λ l. l ++ b.new) a.all_of ∙ append_assoc (full_log m) a.new b.new;
        stored =
            append_assoc (perform text m c).1 (replay text (perform text m c).0 cs).1 _
            ∙ ap (λ l. (perform text m c).1 ++ l) b.stored
            ∙ sym (append_assoc (perform text m c).1 _ b.new)
            ∙ ap (λ l. l ++ b.new) a.stored
            ∙ append_assoc m.persistence_events a.new b.new;
        shown =
            b.shown ∙ ap (λ l. l ++ b.visible) a.shown ∙ append_assoc m.events a.visible b.visible;
        logged = b.logged;
      }

  -- The log is the first events and all that were or will be handed over, and the journal's count is
  -- their number.
  abbrev pub Journaled : MatchMachine E → MatchMachine E × List GameEvent → Type 0
  Journaled m (m', stored) =
      (full_log m' ≡ m.events ++ (stored ++ m'.persistence_events))
      × (m'.journal_event_count ≡ length (full_log m'))

  -- What a match has recorded is the beginning of what it records later, and what it has shown the
  -- beginning of what it shows later.
  abbrev pub Continues : MatchMachine E → MatchMachine E → Type 0
  Continues m m' =
      ((new : List GameEvent) × (full_log m' ≡ full_log m ++ new))
      × ((visible : List GameEvent) × (m'.events ≡ m.events ++ visible))

ok-injective : {A : Type 0} (a b : A) → ◌≡◌ {A = Outcome MatchError A} (ok a) (ok b) → a ≡ b
ok-injective a b h = cc

new_internal-fresh :
    (E : Engine) (shuffle : ℕ → List Participant → List Participant)
    (new_engine : GameMode → ℕ → Outcome String (E.State × List GameEvent)) (mode : GameMode)
    (participants : List Participant) (seed : ℕ) (shuffle_seats : Bool) (m : MatchMachine E)
    → new_internal E shuffle new_engine mode participants seed shuffle_seats ≡ ok m
    → (m.held ≡ none) × (m.persistence_events ≡ []) × (m.journal_event_count ≡ length m.events)
unfolding new_internal started
new_internal-fresh E shuffle new_engine mode participants seed shuffle_seats m built =
    let (_, _, rest) =
      bind-ok (map_err invalid_participants (validate_participants mode participants)) _ built in
    let ((state, events), _, made) =
      bind-ok (map_err match_aborted (new_engine mode seed)) _ rest in
    let is : MatchMachine E =
      started E mode (if shuffle_seats then shuffle seed participants else participants)
        (state, events) in
    let e : is ≡ m = ok-injective is m made in
    subst
      (λ n.
        (n.held ≡ none) × (n.persistence_events ≡ []) × (n.journal_event_count ≡ length n.events))
      e (refl, refl, refl)

-- For a match that was built, whatever sequence of calls its clients make, with any engine: the full
-- log, which is the events shown and those held back, is the first events followed by exactly the
-- events that were handed over for persistence and those that wait for it, in that order, and the
-- journal's count is its length. Whatever further calls follow at that point, the events that were
-- recorded and the events that were shown stay, in their place: both lists only grow at their ends.
pub replay-Journaled :
    (E : Engine) (shuffle : ℕ → List Participant → List Participant)
    (new_engine : GameMode → ℕ → Outcome String (E.State × List GameEvent)) (mode : GameMode)
    (participants : List Participant) (seed : ℕ) (shuffle_seats : Bool) (m : MatchMachine E)
    (text : DecisionError → String) (cs more : List Call)
    → new_internal E shuffle new_engine mode participants seed shuffle_seats ≡ ok m
    → Journaled m (replay text m cs)
      × Continues (replay text m cs).0 (replay text (replay text m cs).0 more).0
replay-Journaled E shuffle new_engine mode participants seed shuffle_seats m text cs more built =
    let (idle, pending, counted) =
      new_internal-fresh E shuffle new_engine mode participants seed shuffle_seats m built in
    let before : full_log m ≡ m.events =
      (λ i. m.events ++ held_log (idle i)) ∙ append_nil m.events in
    let h : IsLogged m = Idle-IsLogged m.events [] m (idle, refl, counted, pending) in
    let k : Stored m (replay text m cs) = replay-Stored text m cs h in
    let later : Stored (replay text m cs).0 (replay text (replay text m cs).0 more) =
      replay-Stored text (replay text m cs).0 more k.logged in
    let handed : (replay text m cs).1 ++ (replay text m cs).0.persistence_events ≡ k.new =
      k.stored ∙ ap (λ l. l ++ k.new) pending in
    (
      (
        k.all_of ∙ ap (λ l. l ++ k.new) before ∙ ap (λ l. m.events ++ l) (sym handed),
        k.logged.counted,
      ),
      ((later.new, later.all_of), (later.visible, later.shown)),
    )
