-- ===== src/Decision/Build.antt =====
-- crates/double_riichi_core/src/decision.rs: how a decision is built, and its common timing.
use driichi.Domain.Mode.{Seat}
use driichi.Domain.Action.{GameAction, discard, pass, canonicalize}
use driichi.Decision.Clock.{Instant, Duration}
use driichi.Decision.Types.{
  DecisionId, ActionId, DecisionKind, DecisionAction, DecisionSeat, Decision, DecisionError,
  no_safe_default, update_entry,
}
use driichi.Prelude.{
  ℕ, suc, ◌+◌, Bool, true, false, ◌&&◌, Option, none, some, List, [], ◌∷◌, map, ◌==◌, find, length,
  all, if◌then◌else◌, Outcome, ok, ok_or, ◌>>=◌,
}
use driichi.Prelude.Decimal.{decimal, cat}

unfoldable pub is_pass : GameAction → Bool
is_pass pass = true
is_pass _ = false

unfoldable pub is_tsumogiri : GameAction → Bool
is_tsumogiri (discard _ true) = true
is_tsumogiri _ = false

unfoldable pub is_discard : GameAction → Bool
is_discard (discard _ _) = true
is_discard _ = false

abbrev pub or_else {ℓ} : {A : Type ℓ} → Option A → Option A → Option A
or_else none later = later
or_else (some a) later = some a

unfoldable pub default_action : List DecisionAction → Option DecisionAction
default_action actions =
    or_else (find (λ a. is_pass a.action) actions) (
      or_else (find (λ a. is_tsumogiri a.action) actions) (find (λ a. is_discard a.action) actions))

unfoldable pub default_action_id : Seat → List DecisionAction → Outcome DecisionError ActionId
default_action_id seat actions = do
  a ← ok_or (default_action actions) (no_safe_default seat)
  ok a.id

-- A seat with its numbered actions, its duration and whether that is a watchdog's.
abbrev pub SeatOption : Type 0
SeatOption = Seat × List (ActionId × GameAction) × Option Duration × Bool

abbrev pub after : Instant → Option Duration → Option Instant
after opened_at none = none
after opened_at (some duration) = some (opened_at + duration)

abbrev pub named_action : ActionId × GameAction → DecisionAction
named_action (id, action) = record { id = id; action = action }

unfoldable pub build_entry : Instant → SeatOption → Outcome DecisionError DecisionSeat
build_entry opened_at (seat, actions, duration, watchdog) = do
  let actions = map named_action actions
  default ← default_action_id seat actions
  ok (record {
    seat = seat;
    actions = actions;
    default_action_id = default;
    submitted_action_id = none;
    opened_at = opened_at;
    duration = duration;
    deadline = after opened_at duration;
    watchdog = watchdog;
    timed_out = false;
  })

unfoldable pub build_entries : Instant → List SeatOption → Outcome DecisionError (List DecisionSeat)
build_entries opened_at [] = ok []
build_entries opened_at (o ∷ os) = do
  e ← build_entry opened_at o
  es ← build_entries opened_at os
  ok (e ∷ es)

abbrev pub duration_eq : Option Duration → Option Duration → Bool
duration_eq none none = true
duration_eq (some a) (some b) = a == b
duration_eq _ _ = false

abbrev pub Bool_eq : Bool → Bool → Bool
Bool_eq true b = b
Bool_eq false true = false
Bool_eq false false = true

unfoldable pub same_timing : DecisionSeat → DecisionSeat → Bool
same_timing first e =
    e.opened_at == first.opened_at
    && (duration_eq e.duration first.duration && Bool_eq e.watchdog first.watchdog)

unfoldable pub recompute_timing : Decision → Decision
unfolding same_timing
recompute_timing d = elim d.entries [
  | [] ↦ record d { duration = none; deadline = none; watchdog = false }
  | first ∷ _ ↦
      if all (same_timing first) d.entries
      then record d {
        opened_at = first.opened_at;
        duration = first.duration;
        deadline = first.deadline;
        watchdog = first.watchdog;
      }
      else record d { duration = none; deadline = none; watchdog = false }
]

unfoldable pub from_action_ids_with_timings :
    DecisionId → DecisionKind → List SeatOption → Instant → Outcome DecisionError Decision
from_action_ids_with_timings id kind options opened_at = do
  entries ← build_entries opened_at options
  let d : Decision = record {
    id = id;
    kind = kind;
    entries = entries;
    opened_at = opened_at;
    duration = none;
    deadline = none;
    watchdog = false;
    is_closed = false;
  }
  ok (recompute_timing d)

-- The loops that give the actions of a decision their identifiers, `a1`, `a2` and so on. The
-- counter runs on from one seat to the next; it is a `u64`, whose overflow is left out.
unfoldable pub number_actions : ℕ → List GameAction → List (ActionId × GameAction)
number_actions next [] = []
number_actions next (a ∷ as') = (cat "a" (decimal next), a) ∷ number_actions (suc next) as'

unfoldable pub number_options :
    ℕ → List (Seat × List GameAction × Option Duration × Bool) → List SeatOption
unfolding number_actions
number_options next [] = []
number_options next ((seat, actions, duration, watchdog) ∷ os) =
    (seat, number_actions next actions, duration, watchdog)
    ∷ number_options (next + length actions) os

-- The actions of a seat in canonical form.
abbrev pub canonical :
    Seat × List GameAction × Option Duration × Bool
    → Seat × List GameAction × Option Duration × Bool
canonical (seat, actions, duration, watchdog) = (seat, map canonicalize actions, duration, watchdog)

unfoldable pub new_with_timings :
    DecisionId
    → DecisionKind
    → List (Seat × List GameAction × Option Duration × Bool)
    → Instant
    → Outcome DecisionError Decision
new_with_timings id kind options opened_at =
    from_action_ids_with_timings id kind (number_options 1 (map canonical options)) opened_at

abbrev pub retimed : Instant → Option Duration → Bool → DecisionSeat → DecisionSeat
retimed opened_at duration watchdog e = record e {
  opened_at = opened_at;
  duration = duration;
  deadline = after opened_at duration;
  watchdog = watchdog;
}

unfoldable pub retime_for : Decision → Seat → Instant → Option Duration → Bool → Decision
retime_for d seat opened_at duration watchdog =
    recompute_timing
      (record d { entries = update_entry seat (retimed opened_at duration watchdog) d.entries })
