-- ===== src/Decision/Resolve.antt =====
-- crates/double_riichi_core/src/decision.rs: what a decision does when time has passed.
use driichi.Decision.Clock.{Instant}
use driichi.Decision.Types.{
  DecisionSeat, Decision, DecisionError, DecisionResolution, is_expired_at, has_passed,
}
use driichi.Decision.Submit.{is_answered, accepted_resolution}
use driichi.Prelude.{
  Bool, true, not, ◌&&◌, ◌||◌, Option, none, some, map, any, if◌then◌else◌, Outcome, ok, ◌>>=◌,
}

-- The body of the loop, and whether it ran for an entry.
unfoldable pub times_out : Instant → DecisionSeat → Bool
times_out now e = not (is_answered e) && has_passed now e.deadline

unfoldable pub time_out : Instant → DecisionSeat → DecisionSeat
time_out now e =
    if times_out now e
    then record e { submitted_action_id = some e.default_action_id; timed_out = true }
    else e

unfoldable pub resolve_at :
    Decision → Instant → Decision × Outcome DecisionError (Option DecisionResolution)
resolve_at d now =
    if d.is_closed
    then (d, ok none)
    else if not (is_expired_at d now)
    then (d, ok none)
    else (let entries = map (time_out now) d.entries in
        let d' : Decision = record d { entries = entries } in
        if not (any (times_out now) d.entries) || any (λ e. not (is_answered e)) entries
        then (d', ok none)
        else (let d'' : Decision = record d' { is_closed = true } in
            (d'', (accepted_resolution d'' >>= λ r. ok (some r)))))
