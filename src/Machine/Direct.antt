-- ===== src/Machine/Direct.antt =====
-- crates/double_riichi_core/src/match_machine.rs: `apply`, which takes an action past the decisions.
use driichi.Domain.Mode.{Seat}
use driichi.Domain.Action.{GameAction, canonicalize}
use driichi.Domain.Equality.{action_eq}
use driichi.Domain.Event.{GameEvent}
use driichi.Machine.Types.{
  Engine, MatchMachine, Run, illegal_action, and_then, call_engine, ensure_running, when_ok,
}
use driichi.Machine.Seats.{validate_seat}
use driichi.Machine.Steps.{record_outcome}
use driichi.Prelude.{none, not, List, any, if◌then◌else◌, err}

module _ {E : Engine} where
  unfoldable pub apply_legal :
      MatchMachine E → Seat → GameAction → List GameAction → Run E (List GameEvent)
  apply_legal m seat action legal =
      if not (any (action_eq action) legal)
      then (m, err (illegal_action seat))
      else and_then (call_engine (record m { decision = none }) (E.apply m.engine seat action))
          (λ m outcome. record_outcome m outcome)

  unfoldable pub apply : MatchMachine E → Seat → GameAction → Run E (List GameEvent)
  apply m seat action = when_ok m (ensure_running m) (λ _. when_ok m (validate_seat m seat) (λ _.
      and_then (call_engine m (E.legal_actions m.engine seat))
        (λ m legal. apply_legal m seat (canonicalize action) legal)))
