-- ===== src/Machine/Play.antt =====
-- crates/double_riichi_core/src/match_machine.rs: the decisions of a match, from the engine's legal
-- actions to the events of what was decided. The clock is an argument.
use driichi.Domain.Mode.{GameMode, Seat, all_seats}
use driichi.Domain.Action.{GameAction, chi, pon, daiminkan, ron, pass}
use driichi.Domain.Event.{GameEvent}
use driichi.Domain.Roster.{Participant, built_in_bot, kind_eq, running, aborted}
use driichi.Decision.Clock.{Instant, Duration, casual, casual_timing}
use driichi.Decision.Types.{
  DecisionId, ActionId, DecisionKind, Decision, DecisionError, Presence, ControllerState,
  DecisionSeat, ResolvedAction, DecisionResolution, DecisionSubmission, accepted, resolved,
  timed_out_for,
}
use driichi.Decision.Build.{number_options, from_action_ids_with_timings}
use driichi.Decision.Submit.{submit_with_decision_id}
use driichi.Decision.Resolve.{resolve_at}
use driichi.Machine.Types.{
  Engine, MatchMachine, Run, MatchError, DecisionResult, invalid_participants, no_decision,
  decision_error, match_aborted, and_then, call_engine, ensure_running, when_ok,
}
use driichi.Machine.Seats.{seat_at, validate_seat, decision_timing_for, set_nth}
use driichi.Machine.Steps.{record_outcome}
use driichi.Machine.Ranking.{validate_participants}
use driichi.Prelude.{
  ℕ, suc, ◌+◌, Bool, true, false, not, Option, none, some, List, [], ◌∷◌, map, String, any, ◌==◌,
  length, if◌then◌else◌, Outcome, ok, err, panic, expect, map_err, ◌>>=◌,
}
use driichi.Prelude.Decimal.{decimal, cat}

unfoldable pub is_response_action : GameAction → Bool
is_response_action (chi _ _ _) = true
is_response_action (pon _ _ _) = true
is_response_action (daiminkan _ _ _) = true
is_response_action (ron _) = true
is_response_action pass = true
is_response_action _ = false

unfoldable pub decision_kind : List (Seat × List GameAction) → DecisionKind
decision_kind options =
    if any (λ o. any is_response_action o.1) options
    then DecisionKind.response
    else DecisionKind.turn

abbrev pub count_actions : List (Seat × List GameAction) → ℕ
count_actions [] = 0
count_actions ((_, actions) ∷ os) = length actions + count_actions os

-- The controller of a seat whose decision timed out while it was away.
unfoldable pub step_in : Presence → ControllerState → ControllerState
step_in Presence.disconnected ControllerState.interactive = ControllerState.temporary_auto
step_in _ controller = controller

-- A seat without actions is left out.
unfoldable pub with_option :
    Seat → List GameAction → List (Seat × List GameAction) → List (Seat × List GameAction)
with_option seat [] options = options
with_option seat (a ∷ actions) options = (seat, a ∷ actions) ∷ options

abbrev pub chosen_actions : List ResolvedAction → List (Seat × GameAction)
chosen_actions actions = map (λ a. (a.seat, a.action)) actions

module _ {E : Engine} where
  unfoldable pub legal_actions : MatchMachine E → Seat → Run E (List GameAction)
  legal_actions m seat = when_ok m (validate_seat m seat) (λ _. elim m.held [
    | some _ ↦ (m, ok [])
    | none ↦ when_ok m (ensure_running m) (λ _. call_engine m (E.legal_actions m.engine seat))
  ])

  -- The loop over the seats: those that may act, with their actions.
  unfoldable pub gather : MatchMachine E → List Seat → Run E (List (Seat × List GameAction))
  gather m [] = (m, ok [])
  gather m (seat ∷ seats) = and_then (call_engine m (E.legal_actions m.engine seat)) (λ m actions.
      and_then (gather m seats) (λ m options. (m, ok (with_option seat actions options))))

  -- The options with the timing of their seats; an index out of range is a panic.
  unfoldable pub timed_options :
      MatchMachine E
      → DecisionKind
      → List (Seat × List GameAction)
      → Outcome MatchError (List (Seat × List GameAction × Option Duration × Bool))
  timed_options m kind [] = ok []
  timed_options m kind ((seat, actions) ∷ os) = do
    x ← expect (seat_at m seat)
    rest ← timed_options m kind os
    let (duration, watchdog) = decision_timing_for m kind x
    ok ((seat, actions, duration, watchdog) ∷ rest)

  -- The text of the one error that building a decision has.
  unfoldable pub keep_decision :
      (DecisionError → String)
      → MatchMachine E
      → Outcome DecisionError Decision
      → Run E (Option Decision)
  keep_decision text m (ok d) = (record m { decision = some d }, ok (some d))
  keep_decision text m (err e) =
      (record m { status = aborted (record { reason = text e }) }, err (match_aborted (text e)))
  keep_decision text m panic = (m, panic)

  unfoldable pub make_decision :
      (DecisionError → String)
      → MatchMachine E
      → Instant
      → List (Seat × List GameAction)
      → Run E (Option Decision)
  make_decision text m now options =
      let kind = decision_kind options in
      let id = cat "d" (decimal m.next_decision_id) in
      when_ok m (timed_options m kind options) (λ timed.
        keep_decision text
          (record m {
            next_decision_id = suc m.next_decision_id;
            next_action_id = m.next_action_id + count_actions options;
          })
          (from_action_ids_with_timings id kind (number_options m.next_action_id timed) now))

  unfoldable pub new_decision :
      (DecisionError → String) → MatchMachine E → Instant → Run E (Option Decision)
  new_decision text m now =
      and_then (gather m (all_seats m.mode)) (λ m options.
        if length options == 0 then (m, ok none) else make_decision text m now options)

  unfoldable pub current_decision :
      (DecisionError → String) → MatchMachine E → Instant → Run E (Option Decision)
  current_decision text m now = elim m.held [
    | some _ ↦ (m, ok none)
    | none ↦
        when_ok m (ensure_running m)
          (λ _. elim m.decision [ some d ↦ (m, ok (some d)) | none ↦ new_decision text m now ])
  ]

  unfoldable pub call_resolved :
      MatchMachine E → List (Seat × GameAction) → Run E (List GameEvent × Option (E.Ended))
  call_resolved m ((seat, action) ∷ []) = call_engine m (E.apply m.engine seat action)
  call_resolved m actions = call_engine m (E.apply_simultaneous m.engine actions)

  unfoldable pub resolve_actions : MatchMachine E → DecisionResolution → Run E DecisionResult
  resolve_actions m r =
      and_then (call_resolved (record m { decision = none }) (chosen_actions r.actions))
        (λ m outcome.
          and_then (record_outcome m outcome)
            (λ m events. (m, ok (DecisionResult.resolved r.decision_id r.actions events))))

  -- A decision is open, if there is one to open.
  unfoldable pub open_first : (DecisionError → String) → MatchMachine E → Instant → Run E (Unit {0})
  open_first text m now = elim m.decision [
    | some _ ↦ (m, ok tt)
    | none ↦ and_then (current_decision text m now) (λ m _. (m, ok tt))
  ]

  unfoldable pub take_submission :
      MatchMachine E
      → DecisionId
      → Decision × Outcome DecisionError DecisionSubmission
      → Run E DecisionResult
  take_submission m decision_id (d, ok (accepted _)) =
      (record m { decision = some d }, ok (DecisionResult.waiting decision_id))
  take_submission m decision_id (d, ok (resolved r)) =
      resolve_actions (record m { decision = some d }) r
  take_submission m decision_id (d, err e) =
      (record m { decision = some d }, err (decision_error e))
  take_submission m decision_id (d, panic) = (record m { decision = some d }, panic)

  unfoldable pub submit_action :
      (DecisionError → String)
      → MatchMachine E
      → Seat
      → DecisionId
      → ActionId
      → Instant
      → Run E DecisionResult
  submit_action text m seat decision_id action_id now = when_ok m (ensure_running m) (λ _.
      when_ok m (validate_seat m seat) (λ _. and_then (open_first text m now) (λ m _.
        elim m.decision [
          | none ↦ (m, err no_decision)
          | some d ↦
              take_submission m decision_id
                (submit_with_decision_id d decision_id seat action_id now)
        ])))

  -- The loop over the seats that timed out.
  unfoldable pub step_in_seat :
      Decision → MatchMachine E → Seat → Outcome MatchError (MatchMachine E)
  step_in_seat d m seat = if not (timed_out_for d seat) then ok m else (do
    x ← expect (seat_at m seat)
    ok (record m { controllers = set_nth seat (step_in x.presence x.controller) m.controllers }))

  unfoldable pub step_in_seats :
      Decision → MatchMachine E → List DecisionSeat → Outcome MatchError (MatchMachine E)
  step_in_seats d m [] = ok m
  step_in_seats d m (e ∷ es) = do m' ← step_in_seat d m e.seat; step_in_seats d m' es

  unfoldable pub finish_expired :
      MatchMachine E → Option DecisionResolution → Run E (Option DecisionResult)
  finish_expired m none = (m, ok none)
  finish_expired m (some r) = and_then (resolve_actions m r) (λ m result. (m, ok (some result)))

  unfoldable pub take_expired :
      MatchMachine E
      → Decision × Outcome DecisionError (Option DecisionResolution)
      → Run E (Option DecisionResult)
  take_expired m (d, err e) = (record m { decision = some d }, err (decision_error e))
  take_expired m (d, panic) = (record m { decision = some d }, panic)
  take_expired m (d, ok r) =
      when_ok m (step_in_seats d (record m { decision = some d }) d.entries)
        (λ m'. finish_expired m' r)

  unfoldable pub resolve_expired :
      (DecisionError → String) → MatchMachine E → Instant → Run E (Option DecisionResult)
  resolve_expired text m now = when_ok m (ensure_running m) (λ _.
      and_then (open_first text m now) (λ m _. elim m.decision [
        | none ↦ (m, ok none)
        | some d ↦ take_expired m (resolve_at d now)
      ]))

-- The machine that `new_internal` builds from the seated players and the engine's start.
unfoldable pub started :
    (E : Engine) → GameMode → List Participant → E.State × List GameEvent → MatchMachine E
started E mode players (state, events) = record {
  mode = mode;
  players = players;
  engine = state;
  status = running;
  events = events;
  last_settlement_scores = none;
  held = none;
  journal_event_count = length events;
  persistence_events = [];
  time_control = casual;
  timing = casual_timing;
  presence = map (λ _. Presence.connected) (all_seats mode);
  controllers =
      map
        (λ p.
          if kind_eq p.kind built_in_bot
          then ControllerState.permanent_auto
          else ControllerState.interactive)
        players;
  next_decision_id = 1;
  next_action_id = 1;
  decision = none;
}

-- `new_internal`: the seed, the shuffle by it and the new engine with its first events are given.
unfoldable pub new_internal :
    (E : Engine)
    → (ℕ → List Participant → List Participant)
    → (GameMode → ℕ → Outcome String (E.State × List GameEvent))
    → GameMode
    → List Participant
    → ℕ
    → Bool
    → Outcome MatchError (MatchMachine E)
new_internal E shuffle new_engine mode participants seed shuffle_seats = do
  _ ← map_err invalid_participants (validate_participants mode participants)
  start ← map_err match_aborted (new_engine mode seed)
  ok (started E mode (if shuffle_seats then shuffle seed participants else participants) start)
