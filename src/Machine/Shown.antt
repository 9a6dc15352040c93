-- ===== src/Machine/Shown.antt =====
-- What a match shows does not touch its record of events.
use driichi.Domain.Roster.{MatchStatus, running, completed, aborted}
use driichi.Decision.Clock.{Instant}
use driichi.Decision.Types.{Decision, DecisionError}
use driichi.Projection.Table.{TableState}
use driichi.Projection.Views.{Audience, AudienceProjection}
use driichi.Machine.Types.{
  Engine, MatchMachine, Run, match_aborted, and_then, or_abort, abort_for_engine,
}
use driichi.Machine.Play.{current_decision}
use driichi.Machine.Show.{table_of, show_table, project}
use driichi.Machine.Stable.{Stable, and_then-holds, or_abort-keeps, current_decision-keeps}
use driichi.Machine.Log.{held_log, IsLogged}
use driichi.Machine.Kept.{Kept, SameLog-IsLogged}
use driichi.Machine.Setters.{unchanged, current_decision-Kept}
use driichi.Prelude.{◌≡◌, refl, sym, ◌∙◌, Option, none, some, ◌++◌, String, Outcome, ok, err, panic}

module _ {E : Engine} (m : MatchMachine E) (h : IsLogged m) where
  stop-Kept :
      (m' : MatchMachine E) (s : MatchStatus)
      → Kept m m'
      → m'.held ≡ none
      → Kept m (record m' { held = none; status = s })
  stop-Kept m' s k idle = record {
    new = k.new;
    visible = k.visible;
    all_of = (λ i. m'.events ++ held_log (sym idle i)) ∙ k.all_of;
    stored = k.stored;
    shown = k.shown;
    logged =
        SameLog-IsLogged m' (record m' { held = none; status = s }) k.logged
          (sym idle, refl, refl, refl);
  }

  or_abort-Kept :
      {A : Type 0} (m' : MatchMachine E) (o : Outcome String A)
      → Kept m m'
      → m'.held ≡ none
      → Kept m (or_abort m' o).0
  unfolding or_abort abort_for_engine
  or_abort-Kept m' (ok a) k idle = k
  or_abort-Kept m' (err _) k idle = stop-Kept m' _ k idle
  or_abort-Kept m' panic k idle = k

  table_of-Kept : (m' : MatchMachine E) → Kept m m' → Kept m (table_of m').0
  unfolding table_of
  table_of-Kept m' k =
      elim m'.held
          as (λ o.
            m'.held ≡ o
            → Kept m
                (elim o as (λ _. Run E TableState) [
                  | some hold ↦ (m', ok hold.table)
                  | none ↦ or_abort m' (E.table_state m'.engine m'.mode m'.players)
                ]).0) [
                  | some hold ↦ λ _. k
                  | none ↦
                      λ idle. or_abort-Kept m' (E.table_state m'.engine m'.mode m'.players) k idle
                ]
        refl

  show_table-Kept :
      (m' : MatchMachine E) (audience : Audience) (now : Instant) (d : Option Decision)
      → Kept m m'
      → Kept m (show_table m' audience now d).0
  unfolding show_table
  show_table-Kept m' audience now d k =
      and_then-holds (Kept m) (Kept m) (table_of m') _ (table_of-Kept m' k) (λ _ l. l)
        (λ _ _ _ l. l)

  pub project-Kept :
      (text : DecisionError → String) (audience : Audience) (now : Instant)
      → Kept m (project text m audience now).0
  unfolding project
  project-Kept text audience now =
      elim m.status
        as (λ s.
          Kept m
            (elim s as (λ _. Run E AudienceProjection) [
              | aborted reason ↦ (m, err (match_aborted reason.reason))
              | completed _ ↦ show_table m audience now none
              | running ↦
                  and_then (current_decision text m now) (λ m d. show_table m audience now d)
            ]).0) [
              | aborted reason ↦ unchanged m h
              | completed _ ↦ show_table-Kept m audience now none (unchanged m h)
              | running ↦
                  and_then-holds (Kept m) (Kept m) (current_decision text m now) _
                    (current_decision-Kept m h text now) (λ _ l. l)
                    (λ m' d _ l. show_table-Kept m' audience now d l)
            ]

-- What a match shows keeps whatever opening a decision keeps.
module _ {E : Engine} (Q : MatchMachine E → Type 0) (law : Stable Q) where
  show_table-keeps :
      (m : MatchMachine E) (audience : Audience) (now : Instant) (d : Option Decision)
      → Q m
      → Q (show_table m audience now d).0
  unfolding show_table table_of
  show_table-keeps m audience now d h =
      and_then-holds Q Q (table_of m) _
        (elim m.held
          as (λ o.
            Q
              (elim o as (λ _. Run E TableState) [
                | some hold ↦ (m, ok hold.table)
                | none ↦ or_abort m (E.table_state m.engine m.mode m.players)
              ]).0) [ some hold ↦ h | none ↦ or_abort-keeps Q law m _ h ])
        (λ _ l. l) (λ _ _ _ l. l)

  pub project-keeps :
      (text : DecisionError → String) (m : MatchMachine E) (audience : Audience) (now : Instant)
      → Q m
      → Q (project text m audience now).0
  unfolding project
  project-keeps text m audience now h =
      elim m.status
        as (λ s.
          Q
            (elim s as (λ _. Run E AudienceProjection) [
              | aborted reason ↦ (m, err (match_aborted reason.reason))
              | completed _ ↦ show_table m audience now none
              | running ↦
                  and_then (current_decision text m now) (λ m d. show_table m audience now d)
            ]).0) [
              | aborted reason ↦ h
              | completed _ ↦ show_table-keeps m audience now none h
              | running ↦
                  and_then-holds Q Q (current_decision text m now) _
                    (current_decision-keeps Q law text m now h) (λ _ l. l)
                    (λ m' d _ l. show_table-keeps m' audience now d l)
            ]
