-- ===== src/Machine/Automatic.antt =====
-- A seat that plays by itself for good stays so.
use driichi.Domain.Mode.{Seat}
use driichi.Domain.Action.{GameAction}
use driichi.Domain.Event.{GameEvent}
use driichi.Decision.Clock.{Instant}
use driichi.Decision.Submit.{submit_with_decision_id}
use driichi.Decision.Types.{
  DecisionId, ActionId, Decision, DecisionError, DecisionSeat, DecisionSubmission, accepted,
  resolved, DecisionResolution, Presence, ControllerState, timed_out_for,
}
use driichi.Machine.Types.{
  Engine, MatchMachine, Run, no_decision, DecisionResult, or_abort, ensure_running,
}
use driichi.Machine.Seats.{SeatState, set_nth, seat_at, validate_seat}
use driichi.Machine.Steps.{
  final_result, held_final_result, split_points, hold_kyoku, record_ended, record_events,
  record_outcome,
}
use driichi.Machine.Play.{
  call_resolved, chosen_actions, resolve_actions, open_first, take_submission, submit_action,
  step_in, step_in_seat, step_in_seats,
}
use driichi.Machine.Stable.{
  Stable, and_then-holds, when_ok-holds, abort-keeps, or_abort-keeps, call_engine-keeps, if-keeps,
  open_first-keeps,
}
use driichi.Machine.Calls.{Leaves, Leaves-bind}
use driichi.Prelude.{
  ℕ, zero, suc, ◌≡◌, ◌≢◌, refl, sym, subst, ap, ◌∙◌, not, Option, none, some, List, [], ◌∷◌, String,
  ◌==◌, get_elem?, Outcome, ok, err, panic, Bool-cases, Option-cases, inl, inr, arith,
}

pub get-set_same :
    (i : ℕ) (x y : ControllerState) (xs : List ControllerState)
    → get_elem? xs i ≡ some y
    → get_elem? (set_nth i x xs) i ≡ some x
unfolding set_nth
get-set_same zero x y [] h = cc
get-set_same zero x y (z ∷ xs) h = refl
get-set_same (suc i) x y [] h = cc
get-set_same (suc i) x y (z ∷ xs) h = get-set_same i x y xs h

get-set_other :
    (i j : ℕ) (x y : ControllerState) (xs : List ControllerState)
    → i ≢ j
    → get_elem? xs j ≡ some y
    → get_elem? (set_nth i x xs) j ≡ some y
unfolding set_nth
get-set_other i zero x y [] other h = cc
get-set_other i (suc j) x y [] other h = cc
get-set_other zero zero x y (z ∷ xs) other h = absurd (other refl)
get-set_other zero (suc j) x y (z ∷ xs) other h = h
get-set_other (suc i) zero x y (z ∷ xs) other h = h
get-set_other (suc i) (suc j) x y (z ∷ xs) other h =
    get-set_other i j x y xs (λ e. other (ap suc e)) h

-- A write to any seat, where it writes the same to an automated one.
pub set-automated :
    (i j : ℕ) (x y : ControllerState) (xs : List ControllerState)
    → get_elem? xs i ≡ some y
    → (y ≡ ControllerState.permanent_auto → x ≡ ControllerState.permanent_auto)
    → get_elem? xs j ≡ some ControllerState.permanent_auto
    → get_elem? (set_nth i x xs) j ≡ some ControllerState.permanent_auto
set-automated i j x y xs at_i same h = elim (Bool-cases (i == j)) [
  | inl e ↦
      let here : i ≡ j = ground arith in
      let auto : some y ≡ some ControllerState.permanent_auto =
        sym at_i ∙ ap (get_elem? xs) here ∙ h in
      subst (λ k. get_elem? (set_nth i x xs) k ≡ some ControllerState.permanent_auto) here
        (get-set_same i x y xs at_i ∙ ap some (same (ground arith)))
  | inr e ↦ get-set_other i j x ControllerState.permanent_auto xs (ground arith) h
]

step_in_auto :
    (p : Presence) (c : ControllerState)
    → c ≡ ControllerState.permanent_auto
    → step_in p c ≡ ControllerState.permanent_auto
unfolding step_in
step_in_auto Presence.connected c h = h
step_in_auto Presence.disconnected ControllerState.interactive h = cc
step_in_auto Presence.disconnected ControllerState.temporary_auto h = h
step_in_auto Presence.disconnected ControllerState.permanent_auto h = h

module _ {E : Engine} where
  module _ (seat : Seat) where
    -- The seat is automated for good.
    abbrev pub Automated : MatchMachine E → Type 0
    Automated m = get_elem? m.controllers seat ≡ some ControllerState.permanent_auto

    pub Automated-Stable : Stable Automated
    Automated-Stable = record {
      engine = λ m s h. h;
      stop = λ m s h. h;
      status = λ m s h. h;
      decision = λ m d h. h;
      numbers = λ m i j h. h;
    }

    record_events-Automated :
        (m : MatchMachine E) (new : List GameEvent)
        → Automated m
        → Automated (record_events m new).0
    unfolding record_events
    record_events-Automated m new h =
        if-keeps Automated Automated-Stable (not (E.is_done m.engine)) _ _ h (
          and_then-holds Automated Automated (or_abort _ (final_result _)) _
            (or_abort-keeps Automated Automated-Stable _ _ h) (λ m k. k)
            (λ m result _ k.
              if-keeps Automated Automated-Stable _ _ _ k
                (abort-keeps Automated Automated-Stable (List GameEvent) m _ k)))

    record_ended-Automated :
        (m : MatchMachine E) (new : List GameEvent) (ended : E.Ended)
        → Automated m
        → Automated (record_ended m new ended).0
    unfolding record_ended hold_kyoku
    record_ended-Automated m new ended h =
        and_then-holds Automated Automated (or_abort m _) _
          (or_abort-keeps Automated Automated-Stable m _ h) (λ m k. k)
          (λ m r _ k.
            and_then-holds Automated Automated (or_abort m _) _
              (or_abort-keeps Automated Automated-Stable m _ k) (λ m l. l)
              (λ m table _ l.
                and_then-holds Automated Automated (or_abort m (held_final_result m r)) _
                  (or_abort-keeps Automated Automated-Stable m _ l) (λ m l. l)
                  (λ m final _ l.
                    and_then-holds Automated Automated (or_abort m (split_points new)) _
                      (or_abort-keeps Automated Automated-Stable m _ l) (λ m l. l)
                      (λ m points _ l. l))))

    pub record_outcome-Automated :
        (m : MatchMachine E) (outcome : List GameEvent × Option (E.Ended))
        → Automated m
        → Automated (record_outcome m outcome).0
    unfolding record_outcome
    record_outcome-Automated m (new, none) h = record_events-Automated m new h
    record_outcome-Automated m (new, some ended) h = record_ended-Automated m new ended h

    call_resolved-Automated :
        (m : MatchMachine E) (actions : List (Seat × GameAction))
        → Automated m
        → Automated (call_resolved m actions).0
    unfolding call_resolved
    call_resolved-Automated m [] h = call_engine-keeps Automated Automated-Stable m _ h
    call_resolved-Automated m ((seat, action) ∷ []) h =
        call_engine-keeps Automated Automated-Stable m _ h
    call_resolved-Automated m (a ∷ b ∷ rest) h = call_engine-keeps Automated Automated-Stable m _ h

    pub resolve_actions-Automated :
        (m : MatchMachine E) (r : DecisionResolution)
        → Automated m
        → Automated (resolve_actions m r).0
    unfolding resolve_actions
    resolve_actions-Automated m r h =
        let open_m : MatchMachine E = record m { decision = none } in
        and_then-holds Automated Automated (call_resolved open_m (chosen_actions r.actions)) _
          (call_resolved-Automated open_m (chosen_actions r.actions) h) (λ m k. k)
          (λ m outcome _ k.
            and_then-holds Automated Automated (record_outcome m outcome) _
              (record_outcome-Automated m outcome k) (λ m l. l) (λ m _ _ l. l))

    take_submission-Automated :
        (m : MatchMachine E) (id : DecisionId)
        (answer : Decision × Outcome DecisionError DecisionSubmission)
        → Automated m
        → Automated (take_submission m id answer).0
    unfolding take_submission
    take_submission-Automated m id (d, ok (accepted _)) h = h
    take_submission-Automated m id (d, ok (resolved r)) h =
        resolve_actions-Automated (record m { decision = some d }) r h
    take_submission-Automated m id (d, err e) h = h
    take_submission-Automated m id (d, panic) h = h

    pub submit_action-Automated :
        (text : DecisionError → String) (m : MatchMachine E) (s : Seat) (id : DecisionId)
        (action : ActionId) (now : Instant)
        → Automated m
        → Automated (submit_action text m s id action now).0
    unfolding submit_action
    submit_action-Automated text m s id action now h =
        when_ok-holds Automated m (ensure_running m) _ h (λ _ _.
          when_ok-holds Automated m (validate_seat m s) _ h (λ _ _.
            and_then-holds Automated Automated (open_first text m now) _
              (open_first-keeps Automated Automated-Stable text m now h) (λ m k. k)
              (λ m _ _ k.
                elim m.decision
                  as (λ o.
                    Automated
                      (elim o as (λ _. Run E DecisionResult) [
                        | none ↦ (m, err no_decision)
                        | some d ↦ take_submission m id (submit_with_decision_id d id s action now)
                      ]).0) [
                        | none ↦ k
                        | some d ↦
                            take_submission-Automated m id
                              (submit_with_decision_id d id s action now) k
                      ])))

    pub seat_at-controller :
        (m : MatchMachine E) (s : Seat) (x : SeatState)
        → seat_at m s ≡ some x
        → get_elem? m.controllers s ≡ some x.controller
    unfolding seat_at
    seat_at-controller m s x h = elim (Option-cases (get_elem? m.players s)) [
      | inl e ↦ absurd (ground arith)
      | inr (p, e) ↦ elim (Option-cases (get_elem? m.presence s)) [
        | inl f ↦ absurd (ground arith)
        | inr (q, f) ↦ elim (Option-cases (get_elem? m.controllers s)) [
          | inl g ↦ absurd (ground arith)
          | inr (c, g) ↦ ground arith
        ]
      ]
    ]

    step_in_seat-Automated :
        (d : Decision) (m : MatchMachine E) (s : Seat)
        → Automated m
        → Leaves Automated (step_in_seat d m s)
    unfolding step_in_seat
    step_in_seat-Automated d m s h = elim (Bool-cases (timed_out_for d s)) [
      | inl e ↦ elim (Option-cases (seat_at m s)) [
        | inl f ↦ rw (e, f) tt
        | inr (x, f) ↦
            rw (e, f)
              (set-automated s seat (step_in x.presence x.controller) x.controller m.controllers
                (seat_at-controller m s x f) (step_in_auto x.presence x.controller) h)
      ]
      | inr e ↦ rw e h
    ]

    pub step_in_seats-Automated :
        (d : Decision) (m : MatchMachine E) (seats : List DecisionSeat)
        → Automated m
        → Leaves Automated (step_in_seats d m seats)
    unfolding step_in_seats
    step_in_seats-Automated d m [] h = h
    step_in_seats-Automated d m (x ∷ xs) h =
        Leaves-bind Automated Automated (step_in_seat d m x.seat) _
          (step_in_seat-Automated d m x.seat h) (λ m' k. step_in_seats-Automated d m' xs k)
