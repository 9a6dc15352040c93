-- ===== src/Machine/Automation.antt =====
-- A seat that plays by itself for good stays so over any sequence of calls.
use driichi.Domain.Mode.{Seat}
use driichi.Domain.Action.{GameAction}
use driichi.Domain.Event.{GameEvent}
use driichi.Domain.Roster.{kind_eq, human}
use driichi.Decision.Clock.{Instant}
use driichi.Decision.Resolve.{resolve_at}
use driichi.Decision.Types.{Decision, DecisionError, DecisionResolution, ControllerState}
use driichi.Machine.Types.{
  Engine, HeldKyoku, MatchMachine, Run, MatchError, no_decision, results_pending, DecisionResult,
  call_engine, ensure_running, when_ok,
}
use driichi.Machine.Seats.{
  SeatState, seat_at, validate_seat, disconnect, resume, reconnect, set_permanent_auto,
  set_time_control, set_timing, is_temporary, is_unlimited,
}
use driichi.Machine.Steps.{
  publish_held, publish_kyoku_step, release_held, release_kyoku, take_persistence_events,
}
use driichi.Machine.Play.{
  legal_actions, resolve_actions, open_first, step_in_seats, finish_expired, take_expired,
  resolve_expired,
}
use driichi.Machine.Stable.{
  and_then-holds, when_ok-holds, call_engine-keeps, current_decision-keeps, open_first-keeps,
}
use driichi.Machine.Calls.{Leaves}
use driichi.Machine.Shown.{project-keeps}
use driichi.Machine.Journal.{
  watch, Call, publish, release, look_up, decide, submit, expire, lose, return, automate, control,
  time, store, perform, replay,
}
use driichi.Prelude.{
  ℕ, ◌≡◌, ◌≢◌, refl, subst, true, not, ◌&&◌, ◌||◌, Option, none, some, List, [], ◌∷◌, String,
  length, ◌==◌, ltb, get_elem?, Outcome, ok, err, panic, expect, Bool-cases, inl, inr,
}
use driichi.Domain.Action.{canonicalize}
use driichi.Domain.Equality.{action_eq}
use driichi.Machine.Direct.{apply_legal, apply}
use driichi.Machine.Steps.{record_outcome}
use driichi.Machine.Automatic.{record_outcome-Automated}
use driichi.Machine.Journal.{act}
use driichi.Prelude.{any}
use driichi.Machine.Automatic.{
  Automated, Automated-Stable, set-automated, seat_at-controller, resolve_actions-Automated,
  submit_action-Automated, step_in_seats-Automated,
}

expect_ok :
    {A : Type 0} (o : Option A) (a : A)
    → ◌≡◌ {A = Outcome MatchError A} (expect o) (ok a)
    → o ≡ some a
expect_ok none a h = cc
expect_ok (some b) a h = cc

not_both : (c : ControllerState) → is_temporary c ≡ true → c ≢ ControllerState.permanent_auto
not_both ControllerState.interactive h e = cc
not_both ControllerState.temporary_auto h e = cc
not_both ControllerState.permanent_auto h e = cc

module _ {E : Engine} (seat : Seat) where
  finish_expired-Automated :
      (m : MatchMachine E) (r : Option DecisionResolution)
      → Automated seat m
      → Automated seat (finish_expired m r).0
  unfolding finish_expired
  finish_expired-Automated m none h = h
  finish_expired-Automated m (some r) h =
      and_then-holds (Automated seat) (Automated seat) (resolve_actions m r) _
        (resolve_actions-Automated seat m r h) (λ m k. k) (λ m _ _ k. k)

  take_expired-Automated :
      (m : MatchMachine E) (answer : Decision × Outcome DecisionError (Option DecisionResolution))
      → Automated seat m
      → Automated seat (take_expired m answer).0
  unfolding take_expired
  take_expired-Automated m (d, err e) h = h
  take_expired-Automated m (d, panic) h = h
  take_expired-Automated m (d, ok r) h =
      let start : MatchMachine E = record m { decision = some d } in
      when_ok-holds (Automated seat) m (step_in_seats d start d.entries) _ h (λ m' e.
        finish_expired-Automated m' r
          (subst (Leaves (Automated seat)) e (step_in_seats-Automated seat d start d.entries h)))

  resolve_expired-Automated :
      (text : DecisionError → String) (m : MatchMachine E) (now : Instant)
      → Automated seat m
      → Automated seat (resolve_expired text m now).0
  unfolding resolve_expired
  resolve_expired-Automated text m now h =
      when_ok-holds (Automated seat) m (ensure_running m) _ h (λ _ _.
        and_then-holds (Automated seat) (Automated seat) (open_first text m now) _
          (open_first-keeps (Automated seat) (Automated-Stable seat) text m now h) (λ m k. k)
          (λ m _ _ k.
            elim m.decision
              as (λ o.
                Automated seat
                  (elim o as (λ _. Run E (Option DecisionResult)) [
                    | none ↦ (m, ok none)
                    | some d ↦ take_expired m (resolve_at d now)
                  ]).0) [ none ↦ k | some d ↦ take_expired-Automated m (resolve_at d now) k ]))

  resume-Automated :
      (m : MatchMachine E) (s : Seat) (x : SeatState) (now : Instant)
      → get_elem? m.controllers s ≡ some x.controller
      → Automated seat m
      → Automated seat (resume m s x now)
  unfolding resume
  resume-Automated m s x now at_s h = elim (Bool-cases (is_temporary x.controller)) [
    | inl e ↦ rw e (
        set-automated s seat ControllerState.interactive x.controller m.controllers at_s
          (λ auto. absurd (not_both x.controller e auto)) h)
    | inr e ↦ elim (Bool-cases (is_unlimited m.time_control && kind_eq x.player.kind human)) [
      | inl f ↦ rw (e, f) h
      | inr f ↦ rw (e, f) h
    ]
  ]

  reconnect-Automated :
      (m : MatchMachine E) (s : Seat) (now : Instant)
      → Automated seat m
      → Automated seat (reconnect m s now).0
  unfolding reconnect
  reconnect-Automated m s now h = when_ok-holds (Automated seat) m (validate_seat m s) _ h (λ _ _.
      when_ok-holds (Automated seat) m (expect (seat_at m s)) _ h (λ x e.
        resume-Automated _ s _ now (seat_at-controller seat m s x (expect_ok (seat_at m s) x e)) h))

  disconnect-Automated :
      (m : MatchMachine E) (s : Seat) (now : Instant)
      → Automated seat m
      → Automated seat (disconnect m s now).0
  unfolding disconnect
  disconnect-Automated m s now h =
      when_ok-holds (Automated seat) m (validate_seat m s) _ h
        (λ _ _. when_ok-holds (Automated seat) m (expect (seat_at m s)) _ h (λ x e. h))

  set_permanent_auto-Automated :
      (m : MatchMachine E) (s : Seat) → Automated seat m → Automated seat (set_permanent_auto m s).0
  unfolding set_permanent_auto
  set_permanent_auto-Automated m s h =
      when_ok-holds (Automated seat) m (validate_seat m s) _ h (λ _ _.
        when_ok-holds (Automated seat) m (expect (get_elem? m.controllers s)) _ h (λ c e.
          set-automated s seat ControllerState.permanent_auto c m.controllers
            (expect_ok (get_elem? m.controllers s) c e) (λ _. refl) h))

  legal_actions-Automated :
      (m : MatchMachine E) (s : Seat) → Automated seat m → Automated seat (legal_actions m s).0
  unfolding legal_actions
  legal_actions-Automated m s h = when_ok-holds (Automated seat) m (validate_seat m s) _ h (λ _ _.
      elim m.held
        as (λ o.
          Automated seat
            (elim o as (λ _. Run E (List GameAction)) [
              | some _ ↦ (m, ok [])
              | none ↦
                  when_ok m (ensure_running m) (λ _. call_engine m (E.legal_actions m.engine s))
            ]).0) [
              | some _ ↦ h
              | none ↦
                  when_ok-holds (Automated seat) m (ensure_running m) _ h
                    (λ _ _. call_engine-keeps (Automated seat) (Automated-Stable seat) m _ h)
            ])

  apply_legal-Automated :
      (m : MatchMachine E) (s : Seat) (action : GameAction) (legal : List GameAction)
      → Automated seat m
      → Automated seat (apply_legal m s action legal).0
  unfolding apply_legal
  apply_legal-Automated m s action legal h =
      let start : MatchMachine E = record m { decision = none } in
      elim (Bool-cases (any (action_eq action) legal)) [
        | inr e ↦ rw e h
        | inl e ↦ rw e (
            and_then-holds (Automated seat) (Automated seat)
              (call_engine start (E.apply m.engine s action))
              (λ m outcome. record_outcome m outcome)
              (call_engine-keeps (Automated seat) (Automated-Stable seat) start
                (E.apply m.engine s action) h)
              (λ a k. k) (λ a outcome _ k. record_outcome-Automated seat a outcome k))
      ]

  apply-Automated :
      (m : MatchMachine E) (s : Seat) (action : GameAction)
      → Automated seat m
      → Automated seat (apply m s action).0
  unfolding apply
  apply-Automated m s action h = when_ok-holds (Automated seat) m (ensure_running m) _ h (λ _ _.
      when_ok-holds (Automated seat) m (validate_seat m s) _ h (λ _ _.
        and_then-holds (Automated seat) (Automated seat)
          (call_engine m (E.legal_actions m.engine s)) _
          (call_engine-keeps (Automated seat) (Automated-Stable seat) m _ h) (λ a k. k)
          (λ a legal _ k. apply_legal-Automated a s (canonicalize action) legal k)))

  publish_held-Automated :
      (m : MatchMachine E) (hold : HeldKyoku) (i : ℕ)
      → Automated seat m
      → Automated seat (publish_held m hold i).0
  unfolding publish_held
  publish_held-Automated m hold i h =
      elim (Bool-cases (not (i == hold.next_step) || ltb (length hold.result.wins) i)) [
        | inl e ↦ rw e h
        | inr e ↦ elim (Bool-cases (i == length hold.result.wins)) [
          | inl f ↦ rw (e, f) h
          | inr f ↦ rw (e, f) h
        ]
      ]

  release_held-Automated :
      (m : MatchMachine E) (hold : HeldKyoku)
      → Automated seat m
      → Automated seat (release_held m hold).0
  unfolding release_held
  release_held-Automated m hold h =
      elim (Bool-cases (ltb (length hold.result.wins) hold.next_step)) [
        | inl e ↦ rw e h
        | inr e ↦ rw e h
      ]

  publish_kyoku_step-Automated :
      (m : MatchMachine E) (i : ℕ) → Automated seat m → Automated seat (publish_kyoku_step m i).0
  unfolding publish_kyoku_step
  publish_kyoku_step-Automated m i h =
      elim m.held
        as (λ o.
          Automated seat
            (elim o as (λ _. Run E (List GameEvent)) [
              | none ↦ (m, err no_decision)
              | some hold ↦ publish_held m hold i
            ]).0) [ none ↦ h | some hold ↦ publish_held-Automated m hold i h ]

  release_kyoku-Automated :
      (m : MatchMachine E) → Automated seat m → Automated seat (release_kyoku m).0
  unfolding release_kyoku
  release_kyoku-Automated m h =
      elim m.held
        as (λ o.
          Automated seat
            (elim o as (λ _. Run E (List GameEvent)) [
              | none ↦ (m, err results_pending)
              | some hold ↦ release_held m hold
            ]).0) [ none ↦ h | some hold ↦ release_held-Automated m hold h ]

  perform-Automated :
      (text : DecisionError → String) (m : MatchMachine E) (c : Call)
      → Automated seat m
      → Automated seat (perform text m c).0
  unfolding perform take_persistence_events set_time_control set_timing
  perform-Automated text m (publish i) h = publish_kyoku_step-Automated m i h
  perform-Automated text m release h = release_kyoku-Automated m h
  perform-Automated text m (look_up s) h = legal_actions-Automated m s h
  perform-Automated text m (act s action) h = apply-Automated m s action h
  perform-Automated text m (watch audience now) h =
      project-keeps (Automated seat) (Automated-Stable seat) text m audience now h
  perform-Automated text m (decide now) h =
      current_decision-keeps (Automated seat) (Automated-Stable seat) text m now h
  perform-Automated text m (submit s id action now) h =
      submit_action-Automated seat text m s id action now h
  perform-Automated text m (expire now) h = resolve_expired-Automated text m now h
  perform-Automated text m (lose s now) h = disconnect-Automated m s now h
  perform-Automated text m (return s now) h = reconnect-Automated m s now h
  perform-Automated text m (automate s) h = set_permanent_auto-Automated m s h
  perform-Automated text m (control c) h = h
  perform-Automated text m (time t) h = h
  perform-Automated text m store h = h

  -- A seat whose controller is automated for good, as that of a built-in bot or of a player that has
  -- given up, is so after any sequence of calls, with any engine: no reconnection, deadline or change
  -- of timing gives it back.
  pub replay-Automated :
      (text : DecisionError → String) (m : MatchMachine E) (cs : List Call)
      → Automated seat m
      → Automated seat (replay text m cs).0
  unfolding replay
  replay-Automated text m [] h = h
  replay-Automated text m (c ∷ cs) h =
      replay-Automated text (perform text m c).0 cs (perform-Automated text m c h)
