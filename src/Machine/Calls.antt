-- ===== src/Machine/Calls.antt =====
-- An action, submitted or applied, and an expired decision keep the record of events.
use driichi.Domain.Mode.{Seat}
use driichi.Domain.Event.{GameEvent}
use driichi.Decision.Clock.{Instant}
use driichi.Decision.Types.{
  DecisionId, ActionId, Decision, DecisionError, DecisionSeat, DecisionSubmission, accepted,
  resolved, DecisionResolution,
}
use driichi.Decision.Submit.{submit_with_decision_id}
use driichi.Decision.Types.{timed_out_for}
use driichi.Decision.Resolve.{resolve_at}
use driichi.Machine.Types.{Engine, MatchMachine, MatchError, ensure_running}
use driichi.Machine.Play.{
  resolve_actions, open_first, take_submission, submit_action, step_in_seat, step_in_seats,
  finish_expired, take_expired, resolve_expired,
}
use driichi.Machine.Seats.{seat_at, validate_seat}
use driichi.Machine.Stable.{and_then-holds, when_ok-holds}
use driichi.Machine.Idle.{Idle, open_first-Idle}
use driichi.Machine.Log.{IsLogged, Unrecorded, IsLogged-Idle}
use driichi.Prelude.{
  ℕ, ◌≡◌, refl, subst, inl, inr, Option, none, some, List, [], ◌∷◌, String, length, Bool-cases,
  Option-cases, Outcome, ok, err, panic, ◌>>=◌,
}
use driichi.Machine.Kept.{Kept, SameLog-Kept, Unrecorded-Kept, resolve_actions-Kept, running-Idle}
use driichi.Domain.Action.{GameAction, canonicalize}
use driichi.Domain.Equality.{action_eq}
use driichi.Machine.Direct.{apply_legal, apply}
use driichi.Machine.Steps.{record_outcome}
use driichi.Machine.Types.{call_engine}
use driichi.Machine.Idle.{call_engine-Idle}
use driichi.Machine.Log.{record_outcome-Settles}
use driichi.Machine.Kept.{Settles-Kept}
use driichi.Prelude.{any}

module _ {E : Engine} where
  -- The machine that a loop leaves, if it ends.
  abbrev pub Leaves : (MatchMachine E → Type 0) → Outcome MatchError (MatchMachine E) → Type 0
  Leaves P (ok m) = P m
  Leaves P (err _) = Unit
  Leaves P panic = Unit

  pub Leaves-bind :
      (P Q : MatchMachine E → Type 0) (o : Outcome MatchError (MatchMachine E))
      (next : MatchMachine E → Outcome MatchError (MatchMachine E))
      → Leaves P o
      → ((m : MatchMachine E) → P m → Leaves Q (next m))
      → Leaves Q (o >>= next)
  Leaves-bind P Q (ok m) next h step = step m h
  Leaves-bind P Q (err _) next h step = tt
  Leaves-bind P Q panic next h step = tt

  step_in_seat-Unrecorded :
      (es ps : List GameEvent) (d : Decision) (m : MatchMachine E) (seat : Seat)
      → Unrecorded es ps m
      → Leaves (Unrecorded es ps) (step_in_seat d m seat)
  unfolding step_in_seat
  step_in_seat-Unrecorded es ps d m seat h = elim (Bool-cases (timed_out_for d seat)) [
    | inl e ↦ elim (Option-cases (seat_at m seat)) [
      | inl f ↦ rw (e, f) tt
      | inr (x, f) ↦ rw (e, f) h
    ]
    | inr e ↦ rw e h
  ]

  step_in_seats-Unrecorded :
      (es ps : List GameEvent) (d : Decision) (m : MatchMachine E) (seats : List DecisionSeat)
      → Unrecorded es ps m
      → Leaves (Unrecorded es ps) (step_in_seats d m seats)
  unfolding step_in_seats
  step_in_seats-Unrecorded es ps d m [] h = h
  step_in_seats-Unrecorded es ps d m (x ∷ xs) h =
      Leaves-bind (Unrecorded es ps) (Unrecorded es ps) (step_in_seat d m x.seat) _
        (step_in_seat-Unrecorded es ps d m x.seat h)
        (λ m' k. step_in_seats-Unrecorded es ps d m' xs k)

  module _ (m : MatchMachine E) (h : IsLogged m) where
    -- What is unrecorded of the machine that was called is kept.
    same :
        (m' : MatchMachine E)
        → m.held ≡ none
        → Unrecorded m.events m.persistence_events m'
        → Kept m m'
    same m' idle k = Unrecorded-Kept m m' h idle k

    take_submission-Kept :
        (m' : MatchMachine E) (id : DecisionId)
        (answer : Decision × Outcome DecisionError DecisionSubmission)
        → m.held ≡ none
        → Unrecorded m.events m.persistence_events m'
        → Kept m (take_submission m' id answer).0
    unfolding take_submission
    take_submission-Kept m' id (d, ok (accepted _)) idle k =
        same (record m' { decision = some d }) idle k
    take_submission-Kept m' id (d, ok (resolved r)) idle k =
        resolve_actions-Kept m (record m' { decision = some d }) r h idle k
    take_submission-Kept m' id (d, err e) idle k = same (record m' { decision = some d }) idle k
    take_submission-Kept m' id (d, panic) idle k = same (record m' { decision = some d }) idle k

    pub submit_action-Kept :
        (text : DecisionError → String) (seat : Seat) (id : DecisionId) (action : ActionId)
        (now : Instant)
        → Kept m (submit_action text m seat id action now).0
    unfolding submit_action
    submit_action-Kept text seat id action now =
        let start : Kept m m = SameLog-Kept m m h (refl, refl, refl, refl) in
        when_ok-holds (Kept m) m (ensure_running m) _ start (λ u running.
          when_ok-holds (Kept m) m (validate_seat m seat) _ start (λ _ _.
            let idle : m.held ≡ none = running-Idle m u running in
            let n : ℕ × List GameEvent = (length m.events, m.persistence_events) in
            and_then-holds (Idle m.events n) (Kept m) (open_first text m now) _
              (open_first-Idle m.events n text m now (IsLogged-Idle m h idle))
              (λ m' k. same m' idle k)
              (λ m' _ _ k. elim (Option-cases m'.decision) [
                | inl e ↦ rw e (same m' idle k)
                | inr (d, e) ↦ rw e (
                    take_submission-Kept m' id (submit_with_decision_id d id seat action now) idle
                      k)
              ])))

    finish_expired-Kept :
        (m' : MatchMachine E) (r : Option DecisionResolution)
        → m.held ≡ none
        → Unrecorded m.events m.persistence_events m'
        → Kept m (finish_expired m' r).0
    unfolding finish_expired
    finish_expired-Kept m' none idle k = same m' idle k
    finish_expired-Kept m' (some r) idle k =
        and_then-holds (Kept m) (Kept m) (resolve_actions m' r) _
          (resolve_actions-Kept m m' r h idle k) (λ _ l. l) (λ _ _ _ l. l)

    take_expired-Kept :
        (m' : MatchMachine E)
        (answer : Decision × Outcome DecisionError (Option DecisionResolution))
        → m.held ≡ none
        → Unrecorded m.events m.persistence_events m'
        → Kept m (take_expired m' answer).0
    unfolding take_expired
    take_expired-Kept m' (d, err e) idle k = same (record m' { decision = some d }) idle k
    take_expired-Kept m' (d, panic) idle k = same (record m' { decision = some d }) idle k
    take_expired-Kept m' (d, ok r) idle k =
        let start : MatchMachine E = record m' { decision = some d } in
        when_ok-holds (Kept m) m' (step_in_seats d start d.entries) _ (same m' idle k) (λ m'' e.
          finish_expired-Kept m'' r idle (
            subst (Leaves (Unrecorded m.events m.persistence_events)) e
              (step_in_seats-Unrecorded m.events m.persistence_events d start d.entries k)))

    pub resolve_expired-Kept :
        (text : DecisionError → String) (now : Instant) → Kept m (resolve_expired text m now).0
    unfolding resolve_expired
    resolve_expired-Kept text now =
        let start : Kept m m = SameLog-Kept m m h (refl, refl, refl, refl) in
        when_ok-holds (Kept m) m (ensure_running m) _ start (λ u running.
          let idle : m.held ≡ none = running-Idle m u running in
          let n : ℕ × List GameEvent = (length m.events, m.persistence_events) in
          and_then-holds (Idle m.events n) (Kept m) (open_first text m now) _
            (open_first-Idle m.events n text m now (IsLogged-Idle m h idle))
            (λ m' k. same m' idle k)
            (λ m' _ _ k. elim (Option-cases m'.decision) [
              | inl e ↦ rw e (same m' idle k)
              | inr (d, e) ↦ rw e (take_expired-Kept m' (resolve_at d now) idle k)
            ]))

    apply_legal-Kept :
        (m' : MatchMachine E) (seat : Seat) (action : GameAction) (legal : List GameAction)
        → m.held ≡ none
        → Unrecorded m.events m.persistence_events m'
        → Kept m (apply_legal m' seat action legal).0
    unfolding apply_legal
    apply_legal-Kept m' seat action legal idle k =
        let n : ℕ × List GameEvent = (length m.events, m.persistence_events) in
        let es : List GameEvent = m.events in
        let ps : List GameEvent = m.persistence_events in
        elim (Bool-cases (any (action_eq action) legal)) [
          | inr e ↦ rw e (same m' idle k)
          | inl e ↦ rw e (
              and_then-holds (Unrecorded es ps) (Kept m)
                (call_engine (record m' { decision = none }) (E.apply m'.engine seat action))
                (λ m outcome. record_outcome m outcome)
                (call_engine-Idle es n (record m' { decision = none })
                  (E.apply m'.engine seat action) k)
                (λ a l. same a idle l)
                (λ a outcome _ l.
                  Settles-Kept outcome.0 m (record_outcome a outcome).0 h idle
                    (record_outcome-Settles es ps outcome.0 a outcome.1 l)))
        ]

    pub apply-Kept : (seat : Seat) (action : GameAction) → Kept m (apply m seat action).0
    unfolding apply
    apply-Kept seat action =
        let start : Kept m m = SameLog-Kept m m h (refl, refl, refl, refl) in
        when_ok-holds (Kept m) m (ensure_running m) _ start (λ u running.
          when_ok-holds (Kept m) m (validate_seat m seat) _ start (λ _ _.
            let idle : m.held ≡ none = running-Idle m u running in
            let n : ℕ × List GameEvent = (length m.events, m.persistence_events) in
            and_then-holds (Unrecorded m.events m.persistence_events) (Kept m)
              (call_engine m (E.legal_actions m.engine seat)) _
              (call_engine-Idle m.events n m (E.legal_actions m.engine seat)
                (IsLogged-Idle m h idle))
              (λ m' k. same m' idle k)
              (λ m' legal _ k. apply_legal-Kept m' seat (canonicalize action) legal idle k)))
