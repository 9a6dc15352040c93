-- ===== src/Machine/Stable.antt =====
-- Operations that open a decision keep whatever the engine's state, an abort, an open decision and the
-- counters of identifiers leave alone.
use driichi.Domain.Mode.{Seat, all_seats}
use driichi.Domain.Action.{GameAction}
use driichi.Decision.Clock.{Instant}
use driichi.Decision.Types.{Decision, DecisionError}
use driichi.Machine.Types.{
  Engine, MatchMachine, Run, MatchError, and_then, or_abort, abort_for_engine, call_engine,
  ensure_running, when_ok,
}
use driichi.Machine.Play.{
  gather, timed_options, keep_decision, make_decision, decision_kind, new_decision,
  current_decision, open_first,
}
use driichi.Prelude.{
  ℕ, ◌≡◌, refl, Bool, true, false, Option, none, some, List, [], ◌∷◌, String, length, ◌==◌,
  if◌then◌else◌, Outcome, ok, err, panic,
}
use driichi.Domain.Roster.{MatchStatus}

module _ {E : Engine} where
  pub and_then-holds :
      {A B : Type 0} (Q R : MatchMachine E → Type 0) (e : Run E A)
      (next : MatchMachine E → A → Run E B)
      → Q e.0
      → ((m : MatchMachine E) → Q m → R m)
      → ((m : MatchMachine E) (a : A) → e.1 ≡ ok a → Q m → R (next m a).0)
      → R (and_then e next).0
  unfolding and_then
  and_then-holds Q R (m, ok a) next h weaken step = step m a refl h
  and_then-holds Q R (m, err _) next h weaken step = weaken m h
  and_then-holds Q R (m, panic) next h weaken step = weaken m h

  pub when_ok-holds :
      {A B : Type 0} (R : MatchMachine E → Type 0) (m : MatchMachine E) (o : Outcome MatchError A)
      (next : A → Run E B)
      → R m
      → ((a : A) → o ≡ ok a → R (next a).0)
      → R (when_ok m o next).0
  unfolding when_ok
  when_ok-holds R m (ok a) next h step = step a refl
  when_ok-holds R m (err _) next h step = h
  when_ok-holds R m panic next h step = h

  -- What such an operation may write keeps `Q`.
  pub record Stable (Q : MatchMachine E → Type 0) : Type 0 where
    pub engine : (m : MatchMachine E) (s : E.State) → Q m → Q (record m { engine = s })
    pub stop :
        (m : MatchMachine E) (s : MatchStatus) → Q m → Q (record m { held = none; status = s })
    pub status : (m : MatchMachine E) (s : MatchStatus) → Q m → Q (record m { status = s })
    pub decision : (m : MatchMachine E) (d : Option Decision) → Q m → Q (record m { decision = d })
    pub numbers :
        (m : MatchMachine E) (i j : ℕ)
        → Q m
        → Q (record m { next_decision_id = i; next_action_id = j })

  module _ (Q : MatchMachine E → Type 0) (law : Stable Q) where
    pub abort-keeps :
        (A : Type 0) (m : MatchMachine E) (reason : String)
        → Q m
        → Q (abort_for_engine {A = A} m reason).0
    unfolding abort_for_engine
    abort-keeps A m reason h = law.stop m _ h

    pub or_abort-keeps :
        {A : Type 0} (m : MatchMachine E) (o : Outcome String A) → Q m → Q (or_abort m o).0
    unfolding or_abort abort_for_engine
    or_abort-keeps m (ok a) h = h
    or_abort-keeps m (err _) h = law.stop m _ h
    or_abort-keeps m panic h = h

    pub call_engine-keeps :
        {A : Type 0} (m : MatchMachine E) (answer : E.State × Outcome String A)
        → Q m
        → Q (call_engine m answer).0
    unfolding call_engine
    call_engine-keeps m (state, o) h =
        or_abort-keeps (record m { engine = state }) o (law.engine m state h)

    gather-keeps : (m : MatchMachine E) (seats : List Seat) → Q m → Q (gather m seats).0
    unfolding gather
    gather-keeps m [] h = h
    gather-keeps m (seat ∷ seats) h =
        and_then-holds (Q) (Q) (call_engine m (E.legal_actions m.engine seat)) _
          (call_engine-keeps m (E.legal_actions m.engine seat) h) (λ m k. k)
          (λ m actions _ k.
            and_then-holds (Q) (Q) (gather m seats) _ (gather-keeps m seats k) (λ m k. k)
              (λ m options _ k. k))

    keep_decision-keeps :
        (text : DecisionError → String) (m : MatchMachine E) (o : Outcome DecisionError Decision)
        → Q m
        → Q (keep_decision text m o).0
    unfolding keep_decision
    keep_decision-keeps text m (ok d) h = law.decision m (some d) h
    keep_decision-keeps text m (err e) h = law.status m _ h
    keep_decision-keeps text m panic h = h

    make_decision-keeps :
        (text : DecisionError → String) (m : MatchMachine E) (now : Instant)
        (options : List (Seat × List GameAction))
        → Q m
        → Q (make_decision text m now options).0
    unfolding make_decision
    make_decision-keeps text m now options h =
        when_ok-holds (Q) m (timed_options m (decision_kind options) options) _ h
          (λ timed _. keep_decision-keeps text _ _ (law.numbers m _ _ h))

    pub if-keeps :
        {A : Type 0} (test : Bool) (left right : Run E A)
        → Q left.0
        → Q right.0
        → Q (if test then left else right).0
    if-keeps true left right h k = h
    if-keeps false left right h k = k

    new_decision-keeps :
        (text : DecisionError → String) (m : MatchMachine E) (now : Instant)
        → Q m
        → Q (new_decision text m now).0
    unfolding new_decision
    new_decision-keeps text m now h =
        and_then-holds (Q) (Q) (gather m (all_seats m.mode)) _ (gather-keeps m (all_seats m.mode) h)
          (λ m k. k)
          (λ m options _ k.
            if-keeps (length options == 0) (m, ok none) (make_decision text m now options) k
              (make_decision-keeps text m now options k))

    pub current_decision-keeps :
        (text : DecisionError → String) (m : MatchMachine E) (now : Instant)
        → Q m
        → Q (current_decision text m now).0
    unfolding current_decision
    current_decision-keeps text m now h =
        elim m.held
          as (λ o.
            Q
              (elim o as (λ _. Run E (Option Decision)) [
                | some _ ↦ (m, ok none)
                | none ↦ when_ok m (ensure_running m) (λ _. elim m.decision [
                  | some d ↦ (m, ok (some d))
                  | none ↦ new_decision text m now
                ])
              ]).0) [
                | some _ ↦ h
                | none ↦ when_ok-holds Q m (ensure_running m) _ h (λ _ _.
                    elim m.decision
                      as (λ o.
                        Q
                          (elim o as (λ _. Run E (Option Decision)) [
                            | some d ↦ (m, ok (some d))
                            | none ↦ new_decision text m now
                          ]).0) [ some d ↦ h | none ↦ new_decision-keeps text m now h ])
              ]

    pub open_first-keeps :
        (text : DecisionError → String) (m : MatchMachine E) (now : Instant)
        → Q m
        → Q (open_first text m now).0
    unfolding open_first
    open_first-keeps text m now h =
        elim m.decision
          as (λ o.
            Q
              (elim o as (λ _. Run E (Unit {0})) [
                | some _ ↦ (m, ok tt)
                | none ↦ and_then (current_decision text m now) (λ m _. (m, ok tt))
              ]).0) [
                | some _ ↦ h
                | none ↦
                    and_then-holds Q Q (current_decision text m now) _
                      (current_decision-keeps text m now h) (λ m k. k) (λ m _ _ k. k)
              ]
