-- ===== src/Machine/Seats.antt =====
-- crates/double_riichi_core/src/match_machine.rs: presence, controllers and timing of the seats. An
-- index out of range is a panic, also where the source would not come to read it.
use driichi.Domain.Mode.{Seat, seat_count}
use driichi.Domain.Roster.{Participant, human, mjai, mcp, built_in_bot, kind_eq}
use driichi.Decision.Clock.{
  Instant, Duration, TimeControl, riichi_dev, casual, unlimited, turn_duration, response_duration,
  TimingConfig,
}
use driichi.Decision.Types.{
  DecisionKind, Decision, Presence, ControllerState, actions_for, deadline_for, is_watchdog_for,
}
use driichi.Decision.Build.{retime_for}
use driichi.Machine.Types.{Engine, MatchMachine, MatchError, invalid_seat, Run, when_ok}
use driichi.Prelude.{
  ℕ, zero, suc, Bool, true, false, not, ◌&&◌, Option, none, some, List, [], ◌∷◌, ltb, get_elem?,
  is_some, if◌then◌else◌, Outcome, ok, err, expect,
}

unfoldable pub set_nth {ℓ} : {A : Type ℓ} → ℕ → A → List A → List A
set_nth i a [] = []
set_nth zero a (x ∷ xs) = a ∷ xs
set_nth (suc i) a (x ∷ xs) = x ∷ set_nth i a xs

abbrev pub is_unlimited : TimeControl → Bool
is_unlimited unlimited = true
is_unlimited _ = false

abbrev pub is_interactive : ControllerState → Bool
is_interactive ControllerState.interactive = true
is_interactive _ = false

abbrev pub is_temporary : ControllerState → Bool
is_temporary ControllerState.temporary_auto = true
is_temporary _ = false

abbrev pub has_actions : Decision → Seat → Bool
has_actions d seat = elim (actions_for d seat) [ [] ↦ false | _ ∷ _ ↦ true ]

abbrev pub map_decision : (Decision → Decision) → Option Decision → Option Decision
map_decision f none = none
map_decision f (some d) = some (f d)

-- One seat's player, presence and controller.
pub record SeatState : Type 0 where
  pub player : Participant
  pub presence : Presence
  pub controller : ControllerState

unfoldable pub timing_of :
    TimeControl → TimingConfig → DecisionKind → SeatState → Option Duration × Bool
timing_of control timing kind x = elim x.controller [
  | ControllerState.temporary_auto ↦ (some 0, false)
  | ControllerState.permanent_auto ↦ (some 0, false)
  | ControllerState.interactive ↦ elim control [
    | casual ↦ elim kind [
      | DecisionKind.turn ↦ (some (turn_duration casual), false)
      | DecisionKind.response ↦ (some (response_duration casual), false)
    ]
    | riichi_dev ↦ elim kind [
      | DecisionKind.turn ↦ (some timing.turn, false)
      | DecisionKind.response ↦ (some timing.response, false)
    ]
    | unlimited ↦ elim x.player.kind [
      | built_in_bot ↦ (some 0, false)
      | human ↦ elim x.presence [
        | Presence.connected ↦ (none, false)
        | Presence.disconnected ↦ (some timing.watchdog, true)
      ]
      | mjai ↦ (some timing.watchdog, true)
      | mcp ↦ (some timing.watchdog, true)
    ]
  ]
]

module _ {E : Engine} where
  unfoldable pub validate_seat : MatchMachine E → Seat → Outcome MatchError (Unit {0})
  validate_seat m seat = if ltb seat (seat_count m.mode) then ok tt else err (invalid_seat seat)

  unfoldable pub seat_at : MatchMachine E → Seat → Option SeatState
  seat_at m seat = elim (get_elem? m.players seat) [
    | none ↦ none
    | some player ↦ elim (get_elem? m.presence seat) [
      | none ↦ none
      | some presence ↦ elim (get_elem? m.controllers seat) [
        | none ↦ none
        | some controller ↦
            some (record { player = player; presence = presence; controller = controller })
      ]
    ]
  ]

  unfoldable pub decision_timing_for :
      MatchMachine E → DecisionKind → SeatState → Option Duration × Bool
  decision_timing_for m kind x = timing_of m.time_control m.timing kind x

  -- An unlimited decision of a human who is lost gets the watchdog's deadline.
  unfoldable pub watch : MatchMachine E → Seat → SeatState → Instant → Decision → Decision
  watch m seat x now d =
      if is_unlimited m.time_control
        && kind_eq x.player.kind human
        && is_interactive x.controller
        && has_actions d seat
        && not (is_some (deadline_for d seat))
      then retime_for d seat now (some m.timing.watchdog) true
      else d

  unfoldable pub disconnect : MatchMachine E → Seat → Instant → Run E (Unit {0})
  disconnect m seat now = when_ok m (validate_seat m seat) (λ _.
      when_ok m (expect (seat_at m seat)) (λ x. (
        record m {
          presence = set_nth seat Presence.disconnected m.presence;
          decision = map_decision (watch m seat x now) m.decision;
        },
        ok tt,
      )))

  unfoldable pub retime : MatchMachine E → Seat → SeatState → Instant → Decision → Decision
  retime m seat x now d =
      let (duration, watchdog) = decision_timing_for m d.kind x in
      retime_for d seat now duration watchdog

  -- The decision and the controller after a seat has come back.
  unfoldable pub resume : MatchMachine E → Seat → SeatState → Instant → MatchMachine E
  resume m seat x now =
      if is_temporary x.controller
      then (let y = record x { controller = ControllerState.interactive } in
          record m {
            controllers = set_nth seat ControllerState.interactive m.controllers;
            decision =
                map_decision (λ d. if has_actions d seat then retime m seat y now d else d)
                  m.decision;
          })
      else if is_unlimited m.time_control && kind_eq x.player.kind human
      then record m {
        decision =
            map_decision
              (λ d.
                if is_watchdog_for d seat && has_actions d seat then retime m seat x now d else d)
              m.decision;
      }
      else m

  unfoldable pub reconnect : MatchMachine E → Seat → Instant → Run E (Unit {0})
  reconnect m seat now = when_ok m (validate_seat m seat) (λ _.
      when_ok m (expect (seat_at m seat)) (λ x. (
        resume (record m { presence = set_nth seat Presence.connected m.presence }) seat
            (record x { presence = Presence.connected }) now,
        ok tt,
      )))

  unfoldable pub set_permanent_auto : MatchMachine E → Seat → Run E (Unit {0})
  set_permanent_auto m seat = when_ok m (validate_seat m seat) (λ _.
      when_ok m (expect (get_elem? m.controllers seat)) (λ _. (
        record m {
          controllers = set_nth seat ControllerState.permanent_auto m.controllers;
          decision = none;
        },
        ok tt,
      )))

  unfoldable pub set_time_control : MatchMachine E → TimeControl → MatchMachine E
  set_time_control m time_control = record m { time_control = time_control; decision = none }

  unfoldable pub set_timing : MatchMachine E → TimingConfig → MatchMachine E
  set_timing m timing = record m { timing = timing; decision = none }
