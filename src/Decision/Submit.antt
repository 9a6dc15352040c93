-- ===== src/Decision/Submit.antt =====
-- crates/double_riichi_core/src/decision.rs: an answer from a seat.
use driichi.Domain.Mode.{Seat}
use driichi.Decision.Clock.{Instant}
use driichi.Decision.Types.{
  DecisionId, ActionId, DecisionSeat, Decision, DecisionError, stale_decision, foreign_action,
  already_consumed, not_eligible, expired, closed, ResolvedAction, DecisionResolution,
  DecisionSubmission, accepted, resolved, entry, update_entry, is_expired_for,
}
use driichi.Prelude.{
  Bool, true, false, not, none, some, List, [], ◌∷◌, str_eq, find, any, all, is_some, if◌then◌else◌,
  Outcome, ok, err, expect, ◌>>=◌,
}

abbrev pub offers : DecisionSeat → ActionId → Bool
offers e action_id = any (λ a. str_eq a.id action_id) e.actions

abbrev pub is_answered : DecisionSeat → Bool
is_answered e = is_some e.submitted_action_id

abbrev pub answered : ActionId → DecisionSeat → DecisionSeat
answered action_id e = record e { submitted_action_id = some action_id }

-- The two `expect`s of `accepted_resolution` are panics.
unfoldable pub resolve_entry : DecisionSeat → Outcome DecisionError ResolvedAction
resolve_entry e = do
  action_id ← expect e.submitted_action_id
  a ← expect (find (λ a. str_eq a.id action_id) e.actions)
  ok (record { seat = e.seat; action_id = a.id; action = a.action; timed_out = e.timed_out })

unfoldable pub resolve_entries : List DecisionSeat → Outcome DecisionError (List ResolvedAction)
unfolding resolve_entry
resolve_entries [] = ok []
resolve_entries (e ∷ es) = do r ← resolve_entry e; rs ← resolve_entries es; ok (r ∷ rs)

unfoldable pub accepted_resolution : Decision → Outcome DecisionError DecisionResolution
accepted_resolution d = do
  actions ← resolve_entries d.entries
  ok (record { decision_id = d.id; actions = actions })

-- The state that an answer leaves, and what it returns.
abbrev pub Submitted : Type 0
Submitted = Decision × Outcome DecisionError DecisionSubmission

unfoldable pub record_answer : Decision → Seat → ActionId → Submitted
record_answer d seat action_id =
    let d' : Decision = record d { entries = update_entry seat (answered action_id) d.entries } in
    if all is_answered d'.entries
    then (let d'' : Decision = record d' { is_closed = true } in
        (d'', (accepted_resolution d'' >>= λ r. ok (resolved r))))
    else (d', ok (accepted false))

unfoldable pub answer_entry : Decision → DecisionSeat → Seat → ActionId → Instant → Submitted
answer_entry d e seat action_id now =
    if is_expired_for d seat now
    then (d, err expired)
    else if is_answered e
    then (d, err (already_consumed seat))
    else if not (offers e action_id)
    then (d, err (foreign_action seat action_id))
    else record_answer d seat action_id

unfoldable pub submit_at : Decision → Seat → ActionId → Instant → Submitted
submit_at d seat action_id now = if d.is_closed then (d, err closed) else elim (entry d seat) [
  | none ↦ (d, err (not_eligible seat))
  | some e ↦ answer_entry d e seat action_id now
]

unfoldable pub submit_with_decision_id :
    Decision → DecisionId → Seat → ActionId → Instant → Submitted
submit_with_decision_id d decision_id seat action_id now =
    if not (str_eq decision_id d.id)
    then (d, err (stale_decision d.id decision_id))
    else submit_at d seat action_id now
