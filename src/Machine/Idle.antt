-- ===== src/Machine/Idle.antt =====
-- The operations that open a decision leave the record of events alone, even where they abort.
use driichi.Domain.Event.{GameEvent}
use driichi.Decision.Clock.{Instant}
use driichi.Decision.Types.{DecisionError}
use driichi.Machine.Types.{Engine, MatchMachine, Run, or_abort, abort_for_engine, call_engine}
use driichi.Machine.Play.{current_decision, open_first}
use driichi.Prelude.{ℕ, ◌≡◌, refl, Bool, none, List, String, if◌then◌else◌, Outcome}
use driichi.Machine.Stable.{
  Stable, abort-keeps, or_abort-keeps, call_engine-keeps, if-keeps, current_decision-keeps,
  open_first-keeps,
}

module _ {E : Engine} where
  -- No results are held, and these are the events, their number in the journal, and those that are
  -- to be persisted.
  abbrev pub Idle : List GameEvent → ℕ × List GameEvent → MatchMachine E → Type 0
  Idle es (n, ps) m =
      (m.held ≡ none) × (m.events ≡ es) × (m.journal_event_count ≡ n) × (m.persistence_events ≡ ps)

  pub Idle-Stable : (es : List GameEvent) (n : ℕ × List GameEvent) → Stable (Idle es n)
  Idle-Stable es n = record {
    engine = λ m s h. h;
    stop = λ m s h. (refl, h.1, h.2, h.3);
    status = λ m s h. h;
    decision = λ m d h. h;
    numbers = λ m i j h. h;
  }

  module _ (es : List GameEvent) (n : ℕ × List GameEvent) where
    pub abort-Idle :
        (A : Type 0) (m : MatchMachine E) (reason : String)
        → Idle es n m
        → Idle es n (abort_for_engine {A = A} m reason).0
    abort-Idle = abort-keeps (Idle es n) (Idle-Stable es n)

    pub or_abort-Idle :
        {A : Type 0} (m : MatchMachine E) (o : Outcome String A)
        → Idle es n m
        → Idle es n (or_abort m o).0
    or_abort-Idle = or_abort-keeps (Idle es n) (Idle-Stable es n)

    pub call_engine-Idle :
        {A : Type 0} (m : MatchMachine E) (answer : E.State × Outcome String A)
        → Idle es n m
        → Idle es n (call_engine m answer).0
    call_engine-Idle = call_engine-keeps (Idle es n) (Idle-Stable es n)

    pub if-Idle :
        {A : Type 0} (test : Bool) (left right : Run E A)
        → Idle es n left.0
        → Idle es n right.0
        → Idle es n (if test then left else right).0
    if-Idle = if-keeps (Idle es n) (Idle-Stable es n)

    pub current_decision-Idle :
        (text : DecisionError → String) (m : MatchMachine E) (now : Instant)
        → Idle es n m
        → Idle es n (current_decision text m now).0
    current_decision-Idle = current_decision-keeps (Idle es n) (Idle-Stable es n)

    pub open_first-Idle :
        (text : DecisionError → String) (m : MatchMachine E) (now : Instant)
        → Idle es n m
        → Idle es n (open_first text m now).0
    open_first-Idle = open_first-keeps (Idle es n) (Idle-Stable es n)
