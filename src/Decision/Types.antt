-- ===== src/Decision/Types.antt =====
-- crates/double_riichi_core/src/decision.rs: the state of a decision, and what it answers.
-- An identifier is its text. A seat's entry is the first of its seat, as `find` gives it.
use driichi.Domain.Mode.{Seat}
use driichi.Domain.Action.{GameAction}
use driichi.Decision.Clock.{Instant, Duration}
use driichi.Prelude.{
  Bool, false, Option, none, some, List, [], ◌∷◌, String, ◌==◌, leb, find, any, if◌then◌else◌, ◌-◌,
}

abbrev pub DecisionId : Type 0
DecisionId = String

abbrev pub ActionId : Type 0
ActionId = String

pub data DecisionKind : Type 0 where
  turn response : DecisionKind

pub record DecisionAction : Type 0 where
  pub id : ActionId
  pub action : GameAction

pub record DecisionSeat : Type 0 where
  pub seat : Seat
  pub actions : List DecisionAction
  pub default_action_id : ActionId
  pub submitted_action_id : Option ActionId
  pub opened_at : Instant
  pub duration : Option Duration
  pub deadline : Option Instant
  pub watchdog : Bool
  pub timed_out : Bool

pub data Presence : Type 0 where
  connected disconnected : Presence

pub data ControllerState : Type 0 where
  interactive temporary_auto permanent_auto : ControllerState

pub data DecisionError : Type 0 where
  stale_decision : (expected received : DecisionId) → DecisionError
  foreign_action : (seat : Seat) (action_id : ActionId) → DecisionError
  already_consumed : (seat : Seat) → DecisionError
  not_eligible : (seat : Seat) → DecisionError
  no_safe_default : (seat : Seat) → DecisionError
  expired : DecisionError
  closed : DecisionError

pub record ResolvedAction : Type 0 where
  pub seat : Seat
  pub action_id : ActionId
  pub action : GameAction
  pub timed_out : Bool

pub record DecisionResolution : Type 0 where
  pub decision_id : DecisionId
  pub actions : List ResolvedAction

pub data DecisionSubmission : Type 0 where
  accepted : (complete : Bool) → DecisionSubmission
  resolved : DecisionResolution → DecisionSubmission

pub record Decision : Type 0 where
  pub id : DecisionId
  pub kind : DecisionKind
  pub entries : List DecisionSeat
  pub opened_at : Instant
  pub duration : Option Duration
  pub deadline : Option Instant
  pub watchdog : Bool
  pub is_closed : Bool

-- `Decision::entry`, and a change through `Decision::entry_mut`.
unfoldable pub find_entry : Seat → List DecisionSeat → Option DecisionSeat
find_entry seat entries = find (λ e. e.seat == seat) entries

unfoldable pub update_entry :
    Seat → (DecisionSeat → DecisionSeat) → List DecisionSeat → List DecisionSeat
update_entry seat f [] = []
update_entry seat f (e ∷ es) = if e.seat == seat then f e ∷ es else e ∷ update_entry seat f es

abbrev pub entry : Decision → Seat → Option DecisionSeat
entry d seat = find_entry seat d.entries

unfoldable pub actions_for : Decision → Seat → List DecisionAction
actions_for d seat = elim (entry d seat) [ none ↦ [] | some e ↦ e.actions ]

unfoldable pub submitted_for : Decision → Seat → Option ActionId
submitted_for d seat = elim (entry d seat) [ none ↦ none | some e ↦ e.submitted_action_id ]

unfoldable pub timed_out_for : Decision → Seat → Bool
timed_out_for d seat = elim (entry d seat) [ none ↦ false | some e ↦ e.timed_out ]

unfoldable pub deadline_for : Decision → Seat → Option Instant
deadline_for d seat = elim (entry d seat) [ none ↦ none | some e ↦ e.deadline ]

unfoldable pub is_watchdog_for : Decision → Seat → Bool
is_watchdog_for d seat = elim (entry d seat) [ none ↦ false | some e ↦ e.watchdog ]

-- `deadline.is_some_and(|deadline| now >= deadline)`.
abbrev pub has_passed : Instant → Option Instant → Bool
has_passed now none = false
has_passed now (some deadline) = leb deadline now

unfoldable pub is_expired_at : Decision → Instant → Bool
is_expired_at d now = any (λ e. has_passed now e.deadline) d.entries

unfoldable pub is_expired_for : Decision → Seat → Instant → Bool
is_expired_for d seat now = elim (entry d seat) [
  | none ↦ false
  | some e ↦ has_passed now e.deadline
]

-- `saturating_duration_since` stops at zero.
unfoldable pub remaining_for : Decision → Seat → Instant → Option Duration
remaining_for d seat now = elim (deadline_for d seat) [
  | none ↦ none
  | some deadline ↦ some (deadline - now)
]
