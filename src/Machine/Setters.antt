-- ===== src/Machine/Setters.antt =====
-- The other operations of a match do not touch its record of events.
use driichi.Domain.Mode.{Seat}
use driichi.Domain.Action.{GameAction}
use driichi.Domain.Roster.{kind_eq, human}
use driichi.Decision.Clock.{Instant}
use driichi.Decision.Types.{DecisionError}
use driichi.Machine.Types.{Engine, MatchMachine, Run, ensure_running, when_ok, call_engine}
use driichi.Machine.Seats.{
  SeatState, seat_at, validate_seat, disconnect, resume, reconnect, set_permanent_auto,
  is_temporary, is_unlimited,
}
use driichi.Machine.Play.{legal_actions, current_decision}
use driichi.Machine.Stable.{when_ok-holds}
use driichi.Machine.Idle.{call_engine-Idle, current_decision-Idle}
use driichi.Machine.Log.{IsLogged, IsLogged-Idle}
use driichi.Machine.Kept.{Kept, SameLog, SameLog-Kept, Unrecorded-Kept}
use driichi.Prelude.{
  ◌≡◌, refl, none, some, List, [], String, length, Option-cases, inl, inr, Bool-cases, ◌&&◌, ok,
  expect, get_elem?,
}

module _ {E : Engine} where
  module _ (m : MatchMachine E) (h : IsLogged m) where
    pub unchanged : Kept m m
    unchanged = SameLog-Kept m m h (refl, refl, refl, refl)

    pub legal_actions-Kept : (seat : Seat) → Kept m (legal_actions m seat).0
    unfolding legal_actions
    legal_actions-Kept seat = when_ok-holds (Kept m) m (validate_seat m seat) _ unchanged (λ _ _.
        elim m.held
            as (λ o.
              m.held ≡ o
              → Kept m
                  (elim o as (λ _. Run E (List GameAction)) [
                    | some _ ↦ (m, ok [])
                    | none ↦
                        when_ok m (ensure_running m)
                          (λ _. call_engine m (E.legal_actions m.engine seat))
                  ]).0) [
                    | some _ ↦ λ _. unchanged
                    | none ↦ λ idle. when_ok-holds (Kept m) m (ensure_running m) _ unchanged (λ _ _.
                        Unrecorded-Kept m _ h idle (
                          call_engine-Idle m.events (length m.events, m.persistence_events) m _
                            (IsLogged-Idle m h idle)))
                  ]
          refl)

    pub current_decision-Kept :
        (text : DecisionError → String) (now : Instant) → Kept m (current_decision text m now).0
    unfolding current_decision
    current_decision-Kept text now = elim (Option-cases m.held) [
      | inl idle ↦ Unrecorded-Kept m (current_decision text m now).0 h idle (
          current_decision-Idle m.events (length m.events, m.persistence_events) text m now
            (IsLogged-Idle m h idle))
      | inr (hold, e) ↦
          SameLog-Kept m (current_decision text m now).0 h (rw e (refl, refl, refl, refl))
    ]

    resume-SameLog :
        (m' : MatchMachine E) (seat : Seat) (x : SeatState) (now : Instant)
        → SameLog m m'
        → SameLog m (resume m' seat x now)
    unfolding resume
    resume-SameLog m' seat x now k = elim (Bool-cases (is_temporary x.controller)) [
      | inl e ↦ rw e k
      | inr e ↦ elim (Bool-cases (is_unlimited m'.time_control && kind_eq x.player.kind human)) [
        | inl f ↦ rw (e, f) k
        | inr f ↦ rw (e, f) k
      ]
    ]

    pub disconnect-Kept : (seat : Seat) (now : Instant) → Kept m (disconnect m seat now).0
    unfolding disconnect
    disconnect-Kept seat now = when_ok-holds (Kept m) m (validate_seat m seat) _ unchanged (λ _ _.
        when_ok-holds (Kept m) m (expect (seat_at m seat)) _ unchanged
          (λ x _. SameLog-Kept m _ h (refl, refl, refl, refl)))

    pub reconnect-Kept : (seat : Seat) (now : Instant) → Kept m (reconnect m seat now).0
    unfolding reconnect
    reconnect-Kept seat now = when_ok-holds (Kept m) m (validate_seat m seat) _ unchanged (λ _ _.
        when_ok-holds (Kept m) m (expect (seat_at m seat)) _ unchanged
          (λ x _. SameLog-Kept m _ h (resume-SameLog _ seat _ now (refl, refl, refl, refl))))

    pub set_permanent_auto-Kept : (seat : Seat) → Kept m (set_permanent_auto m seat).0
    unfolding set_permanent_auto
    set_permanent_auto-Kept seat =
        when_ok-holds (Kept m) m (validate_seat m seat) _ unchanged (λ _ _.
          when_ok-holds (Kept m) m (expect (get_elem? m.controllers seat)) _ unchanged
            (λ x _. SameLog-Kept m _ h (refl, refl, refl, refl)))
