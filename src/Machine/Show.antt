-- ===== src/Machine/Show.antt =====
-- crates/double_riichi_core/src/match_machine.rs: what a match shows to an audience.
use driichi.Domain.Roster.{running, completed, aborted}
use driichi.Decision.Clock.{Instant}
use driichi.Decision.Types.{Decision, DecisionError}
use driichi.Projection.Table.{TableState, with_decision}
use driichi.Projection.Views.{Audience, AudienceProjection, project_table_state, with_kyoku_results}
use driichi.Machine.Types.{Engine, MatchMachine, Run, match_aborted, and_then, or_abort}
use driichi.Machine.Steps.{published_kyoku_results}
use driichi.Machine.Play.{current_decision}
use driichi.Prelude.{Option, none, some, String, ok, err}

abbrev pub shown_decision : Option Decision → TableState → TableState
shown_decision none s = s
shown_decision (some d) s = with_decision s d

module _ {E : Engine} where
  unfoldable pub table_of : MatchMachine E → Run E TableState
  table_of m = elim m.held [
    | some hold ↦ (m, ok hold.table)
    | none ↦ or_abort m (E.table_state m.engine m.mode m.players)
  ]

  unfoldable pub show_table :
      MatchMachine E → Audience → Instant → Option Decision → Run E AudienceProjection
  show_table m audience now d = and_then (table_of m) (λ m state.
      let projection = project_table_state (shown_decision d state) audience now in
      (
        m,
        ok (elim (published_kyoku_results m) [
          | none ↦ projection
          | some results ↦ with_kyoku_results projection results
        ]),
      ))

  unfoldable pub project :
      (DecisionError → String) → MatchMachine E → Audience → Instant → Run E AudienceProjection
  project text m audience now = elim m.status [
    | aborted reason ↦ (m, err (match_aborted reason.reason))
    | completed _ ↦ show_table m audience now none
    | running ↦ and_then (current_decision text m now) (λ m d. show_table m audience now d)
  ]
