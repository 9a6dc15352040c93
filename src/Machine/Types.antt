-- ===== src/Machine/Types.antt =====
-- crates/double_riichi_core/src/match_machine.rs: the state of a match, and what it uses of the
-- engine. A call of the engine returns the engine's state that it leaves, and a failure of the
-- engine is the text of its error.
use driichi.Domain.Mode.{GameMode, Seat}
use driichi.Domain.Action.{GameAction}
use driichi.Domain.Event.{GameEvent}
use driichi.Domain.Roster.{Participant, MatchResult, MatchStatus, running, completed, aborted}
use driichi.Decision.Clock.{TimeControl, TimingConfig, TimingError}
use driichi.Decision.Types.{
  DecisionId, Decision, DecisionError, Presence, ControllerState, ResolvedAction,
}
use driichi.Results.Types.{KyokuResultRecord}
use driichi.Projection.Table.{TableState, ProjectionError}
use driichi.Prelude.{ℕ, Bool, Option, none, some, List, String, Outcome, ok, err, panic}
use driichi.Prelude.Int.{ℤ}

pub record Engine : Type 1 where
  pub State : Type 0
  pub Ended : Type 0
  pub legal_actions : State → Seat → State × Outcome String (List GameAction)
  pub apply : State → Seat → GameAction → State × Outcome String (List GameEvent × Option Ended)
  pub apply_simultaneous :
      State → List (Seat × GameAction) → State × Outcome String (List GameEvent × Option Ended)
  pub result_record :
      State → Ended → List Participant → ℕ → ℕ → List GameEvent → Outcome String KyokuResultRecord
  pub ended_table_state : State → Ended → List Participant → List ℤ → ℕ → Outcome String TableState
  pub table_state : State → GameMode → List Participant → Outcome String TableState
  pub is_done : State → Bool
  pub scores : State → List ℤ

pub data MatchError : Type 0 where
  invalid_participants : String → MatchError
  invalid_seat : Seat → MatchError
  illegal_action : Seat → MatchError
  no_decision : MatchError
  results_pending : MatchError
  decision_error : DecisionError → MatchError
  timing_error : TimingError → MatchError
  projection_error : ProjectionError → MatchError
  finished : MatchError
  match_aborted : String → MatchError

pub data DecisionResult : Type 0 where
  waiting : DecisionId → DecisionResult
  resolved : DecisionId → List ResolvedAction → List GameEvent → DecisionResult

pub record HeldKyoku : Type 0 where
  pub table : TableState
  pub result : KyokuResultRecord
  pub next_step : ℕ
  pub terminal_events : List GameEvent
  pub future_events : List GameEvent
  pub final_result : Option MatchResult

pub record MatchMachine (E : Engine) : Type 0 where
  pub mode : GameMode
  pub players : List Participant
  pub engine : E.State
  pub status : MatchStatus
  pub events : List GameEvent
  pub last_settlement_scores : Option (List ℤ)
  pub held : Option HeldKyoku
  pub journal_event_count : ℕ
  pub persistence_events : List GameEvent
  pub time_control : TimeControl
  pub timing : TimingConfig
  pub presence : List Presence
  pub controllers : List ControllerState
  pub next_decision_id : ℕ
  pub next_action_id : ℕ
  pub decision : Option Decision

-- The state that an operation leaves, and what it returns.
abbrev pub Run : Engine → Type 0 → Type 0
Run E A = MatchMachine E × Outcome MatchError A

module _ {E : Engine} where
  -- What follows if an operation has not failed.
  unfoldable pub and_then : {A B : Type 0} → Run E A → (MatchMachine E → A → Run E B) → Run E B
  and_then (m, ok a) next = next m a
  and_then (m, err e) next = (m, err e)
  and_then (m, panic) next = (m, panic)

  unfoldable pub abort_for_engine : {A : Type 0} → MatchMachine E → String → Run E A
  abort_for_engine m reason = (
    record m { held = none; status = aborted (record { reason = reason }) },
    err (match_aborted reason),
  )

  -- A failure of the engine, or of a check against it, aborts the match.
  unfoldable pub or_abort : {A : Type 0} → MatchMachine E → Outcome String A → Run E A
  or_abort m (ok a) = (m, ok a)
  or_abort m (err reason) = abort_for_engine m reason
  or_abort m panic = (m, panic)

  unfoldable pub call_engine : {A : Type 0} → MatchMachine E → E.State × Outcome String A → Run E A
  call_engine m (state, answer) = or_abort (record m { engine = state }) answer

  unfoldable pub ensure_running : MatchMachine E → Outcome MatchError (Unit {0})
  ensure_running m = elim m.held [
    | some _ ↦ err results_pending
    | none ↦ elim m.status [
      | running ↦ ok tt
      | aborted reason ↦ err (match_aborted reason.reason)
      | completed _ ↦ err finished
    ]
  ]

  -- `?` on a check that leaves the state alone.
  unfoldable pub when_ok :
      {A B : Type 0} → MatchMachine E → Outcome MatchError A → (A → Run E B) → Run E B
  when_ok m (ok a) next = next a
  when_ok m (err e) next = (m, err e)
  when_ok m panic next = (m, panic)
