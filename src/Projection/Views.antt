-- ===== src/Projection/Views.antt =====
-- crates/double_riichi_core/src/projection.rs: the views of the audiences. The clock is an argument.
use driichi.Domain.Mode.{GameMode, Seat, Wind}
use driichi.Domain.Tile.{Tile}
use driichi.Domain.Action.{GameAction}
use driichi.Domain.Roster.{ParticipantId, ParticipantKind}
use driichi.Decision.Clock.{Instant, Duration}
use driichi.Decision.Types.{
  DecisionId, ActionId, DecisionKind, DecisionAction, DecisionSeat, Decision, entry,
}
use driichi.Results.Types.{PublishedKyokuResults}
use driichi.Projection.Table.{MeldState, TablePlayerState, TableState}
use driichi.Prelude.{
  ℕ, ◌-◌, ◌/◌, ◌^◌, Bool, true, false, ◌||◌, Option, none, some, List, [], ◌∷◌, map, String, ◌==◌,
  ltb, is_some, length, min, if◌then◌else◌,
}
use driichi.Prelude.Int.{ℤ}

pub data Audience : Type 0 where
  player : Seat → Audience
  public benchmark_admin replay_admin : Audience

pub record VisibleMeld : Type 0 where
  pub tiles : List Tile
  pub opened : Bool
  pub from_who : Option Seat
  pub called_tile : Option Tile

pub record VisiblePlayer : Type 0 where
  pub seat : Seat
  pub participant_id : ParticipantId
  pub display_name : String
  pub kind : ParticipantKind
  pub score : ℤ
  pub hand : Option (List Tile)
  pub concealed_count : ℕ
  pub discards : List Tile
  pub melds : List VisibleMeld
  pub riichi : Bool
  pub riichi_discard_index : Option ℕ

pub record VisibleAction : Type 0 where
  pub action_id : ActionId
  pub action : GameAction

pub record PlayerDecisionProjection : Type 0 where
  pub decision_id : DecisionId
  pub kind : DecisionKind
  pub actions : List VisibleAction
  pub default_action_id : ActionId
  pub duration_ms : Option ℕ
  pub remaining_ms : Option ℕ
  pub watchdog : Bool

pub record PublicDecisionProjection : Type 0 where
  pub decision_id : DecisionId
  pub kind : DecisionKind
  pub duration_ms : Option ℕ
  pub remaining_ms : Option ℕ
  pub watchdog : Bool

pub record ReplayDecisionEntry : Type 0 where
  pub seat : Seat
  pub actions : List VisibleAction
  pub default_action_id : ActionId
  pub submitted_action_id : Option ActionId

pub record ReplayDecisionProjection : Type 0 where
  pub decision_id : DecisionId
  pub kind : DecisionKind
  pub eligible : List Seat
  pub entries : List ReplayDecisionEntry
  pub duration_ms : Option ℕ
  pub remaining_ms : Option ℕ
  pub watchdog : Bool

-- The fields that the three kinds of view share, and the decision as each kind shows it.
pub record View (D : Type 0) : Type 0 where
  pub mode : GameMode
  pub round : Option Wind
  pub kyoku : Option ℕ
  pub dealer : Option Seat
  pub honba : Option ℕ
  pub kyotaku : Option ℕ
  pub remaining_wall : Option ℕ
  pub players : List VisiblePlayer
  pub dora_indicators : List Tile
  pub decision : Option D
  pub kyoku_results : Option PublishedKyokuResults

pub data AudienceProjection : Type 0 where
  player_view : (viewer_seat : Seat) → View PlayerDecisionProjection → AudienceProjection
  public_view : View PublicDecisionProjection → AudienceProjection
  benchmark_admin_view : View PublicDecisionProjection → AudienceProjection
  replay_admin_view : View ReplayDecisionProjection → AudienceProjection

pub data HandVisibility : Type 0 where
  own : Seat → HandVisibility
  nothing everything : HandVisibility

unfoldable pub reveals : HandVisibility → Seat → Bool
reveals (own viewer) seat = viewer == seat
reveals nothing seat = false
reveals everything seat = true

unfoldable pub visible_meld : Bool → MeldState → VisibleMeld
visible_meld reveal_closed m =
    let reveal = m.opened || reveal_closed in
    record {
      tiles = if reveal then m.tiles else [];
      opened = m.opened;
      from_who = if reveal then m.from_who else none;
      called_tile = if reveal then m.called_tile else none;
    }

-- `filter(|&index| index < length)`.
unfoldable pub inside : Option ℕ → ℕ → Option ℕ
inside none n = none
inside (some index) n = if ltb index n then some index else none

unfoldable pub visible_player : HandVisibility → TablePlayerState → VisiblePlayer
visible_player visibility p =
    let shown = reveals visibility p.seat in
    record {
      seat = p.seat;
      participant_id = p.participant.id;
      display_name = p.participant.display_name;
      kind = p.participant.kind;
      score = p.score;
      hand = if shown then some p.hand else none;
      concealed_count = length p.hand;
      discards = p.discards;
      melds = map (visible_meld shown) p.melds;
      riichi = p.riichi;
      riichi_discard_index = inside p.riichi_discard_index (length p.discards);
    }

unfoldable pub visible_action : DecisionAction → VisibleAction
visible_action a = record { action_id = a.id; action = a.action }

-- Whole milliseconds, at most the greatest `u64`.
unfoldable pub duration_ms : Option Duration → Option ℕ
duration_ms none = none
duration_ms (some duration) = some (min (duration / 10 ^ 6) (2 ^ 64 - 1))

abbrev pub remaining : Option Instant → Instant → Option Duration
remaining none now = none
remaining (some deadline) now = some (deadline - now)

abbrev pub visible_actions : DecisionSeat → List VisibleAction
visible_actions e = map visible_action e.actions

-- All accessors of one seat read the first entry of that seat.
unfoldable pub player_entry : Decision → Instant → DecisionSeat → Option PlayerDecisionProjection
player_entry d now e = elim e.actions [
  | [] ↦ none
  | _ ∷ _ ↦ some (record {
    decision_id = d.id;
    kind = d.kind;
    actions = if is_some e.submitted_action_id then [] else visible_actions e;
    default_action_id = e.default_action_id;
    duration_ms = duration_ms e.duration;
    remaining_ms = duration_ms (remaining e.deadline now);
    watchdog = e.watchdog;
  })
]

unfoldable pub player_decision : Decision → Seat → Instant → Option PlayerDecisionProjection
player_decision d seat now = elim (entry d seat) [ none ↦ none | some e ↦ player_entry d now e ]

unfoldable pub public_decision : Instant → Decision → PublicDecisionProjection
public_decision now d = record {
  decision_id = d.id;
  kind = d.kind;
  duration_ms = duration_ms d.duration;
  remaining_ms = duration_ms (remaining d.deadline now);
  watchdog = d.watchdog;
}

-- The entry that the accessors read for the seat of an entry; there is one, since that entry itself
-- has the seat.
abbrev pub first_of : Decision → DecisionSeat → DecisionSeat
first_of d e = elim (entry d e.seat) [ none ↦ e | some first ↦ first ]

unfoldable pub replay_decision : Instant → Decision → ReplayDecisionProjection
replay_decision now d = record {
  decision_id = d.id;
  kind = d.kind;
  eligible = map (λ e. e.seat) d.entries;
  entries =
      map
        (λ e. record {
          seat = e.seat;
          actions = visible_actions e;
          default_action_id = (first_of d e).default_action_id;
          submitted_action_id = (first_of d e).submitted_action_id;
        })
        d.entries;
  duration_ms = duration_ms d.duration;
  remaining_ms = duration_ms (remaining d.deadline now);
  watchdog = d.watchdog;
}

unfoldable pub view_of : {D : Type 0} → TableState → HandVisibility → Option D → View D
view_of s visibility decision = record {
  mode = s.mode;
  round = s.round;
  kyoku = s.kyoku;
  dealer = s.dealer;
  honba = s.honba;
  kyotaku = s.kyotaku;
  remaining_wall = s.remaining_wall;
  players = map (visible_player visibility) s.players;
  dora_indicators = s.dora_indicators;
  decision = decision;
  kyoku_results = none;
}

-- `and_then` and `map` on the decision.
abbrev pub decided : {D : Type 0} → (Decision → Option D) → Option Decision → Option D
decided show none = none
decided show (some d) = show d

unfoldable pub project_table_state : TableState → Audience → Instant → AudienceProjection
project_table_state s (player viewer) now =
    player_view viewer
      (view_of s (own viewer) (decided (λ d. player_decision d viewer now) s.decision))
project_table_state s public now =
    public_view (view_of s nothing (decided (λ d. some (public_decision now d)) s.decision))
project_table_state s benchmark_admin now =
    benchmark_admin_view
      (view_of s everything (decided (λ d. some (public_decision now d)) s.decision))
project_table_state s replay_admin now =
    replay_admin_view
      (view_of s everything (decided (λ d. some (replay_decision now d)) s.decision))

unfoldable pub with_kyoku_results : AudienceProjection → PublishedKyokuResults → AudienceProjection
with_kyoku_results (player_view viewer v) results =
    player_view viewer (record v { kyoku_results = some results })
with_kyoku_results (public_view v) results = public_view (record v { kyoku_results = some results })
with_kyoku_results (benchmark_admin_view v) results =
    benchmark_admin_view (record v { kyoku_results = some results })
with_kyoku_results (replay_admin_view v) results =
    replay_admin_view (record v { kyoku_results = some results })
