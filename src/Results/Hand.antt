-- ===== src/Results/Hand.antt =====
-- crates/double_riichi_core/src/results.rs: the check of the results of a hand,
-- KyokuResultRecord::validate. The sets that its loops fill are lists.
use driichi.Domain.Mode.{Seat, seat_count}
use driichi.Domain.Roster.{Participant, ParticipantId}
use driichi.Results.Types.{WinResult, ResultMeld, ScoreChange, KyokuResultRecord}
use driichi.Results.Melds.{check_melds, hand_tiles, named_tiles, is_foreign_tile, all_new}
use driichi.Results.Scoring.{Rules, check_yaku, check_points}
use driichi.Prelude.{
  ℕ, suc, ◌+◌, ◌*◌, ◌/◌, Bool, true, false, not, ◌&&◌, ◌||◌, Option, none, some, List, [], ◌∷◌, map,
  String, str_eq, any, ltb, leb, ◌==◌, is_some, length, get_elem?, if◌then◌else◌, Outcome, ok,
  expect, reject_if, ◌>>=◌, ◌>>◌,
}
use driichi.Prelude.Int.{ℤ, eqb_ℤ, checked_add}

abbrev pub is_sum : Option ℤ → ℤ → Bool
is_sum none after = false
is_sum (some sum) after = eqb_ℤ sum after

abbrev pub bool_eq : Bool → Bool → Bool
bool_eq true b = b
bool_eq false b = not b

unfoldable pub is_change : ℕ → Participant → ScoreChange → Bool
is_change index p c =
    c.seat == index && str_eq c.participant_id p.id && is_sum (checked_add c.before c.delta) c.after

-- The loop over the roster.
unfoldable pub check_changes :
    List ScoreChange → List ParticipantId → ℕ → List Participant → Outcome String (Unit {0})
check_changes changes seen index [] = ok tt
check_changes changes seen index (p ∷ ps) = do
  reject_if (any (str_eq p.id) seen || str_eq p.id "") "duplicate or empty participant ID"
  change ← expect (get_elem? changes index)
  reject_if (not (is_change index p change)) "invalid settlement seat, identity or arithmetic"
  check_changes changes (p.id ∷ seen) (suc index) ps

-- Exactly a hand without wins has the evidence of a draw.
unfoldable pub check_draw : KyokuResultRecord → ℕ → Outcome String (Unit {0})
check_draw r seats = do
  reject_if (bool_eq (length r.wins == 0) (not (is_some r.settlement.draw_reason)))
      "draw reason and wins disagree"
  if length r.wins == 0
      then reject_if
          (elim r.draw_event_delta_adjustment [
            | none ↦ true
            | some deltas ↦ not (length deltas == seats)
          ])
          "missing or malformed draw delta evidence"
      else reject_if (is_some r.draw_event_delta_adjustment) "win carries draw delta evidence"

abbrev pub is_winner : List Participant → Seat → ParticipantId → Bool
is_winner roster seat id = elim (get_elem? roster seat) [ none ↦ false | some p ↦ str_eq id p.id ]

abbrev pub is_later : Option ℕ → ℕ → Bool
is_later none index = true
is_later (some previous) index = ltb previous index

abbrev pub is_winning_tile : Option ℕ → ℕ → Bool
is_winning_tile none tile = false
is_winning_tile (some found) tile = found == tile

-- The identity of a win, its position, and its order.
unfoldable pub is_placed :
    KyokuResultRecord → List Participant → List ℕ → Option ℕ → WinResult → Bool
is_placed r roster winners previous w =
    ltb w.seat (length roster)
    && is_winner roster w.seat w.winner
    && not (any (λ seat. seat == w.seat) winners)
    && ltb w.target (length roster)
    && bool_eq w.tsumo (w.seat == w.target)
    && ltb w.event_index r.end_event_index
    && is_later previous w.event_index
    && is_winning_tile (get_elem? w.concealed w.winning_tile_index) w.winning_tile
    && not (w.win_points == 0)

abbrev pub is_from_outside : ℕ → ResultMeld → Bool
is_from_outside seats m = elim m.from_who [ none ↦ false | some seat ↦ leb seats seat ]

-- One round of the loop over the wins, with the winners and the event that it has seen.
unfoldable pub check_win :
    Rules
    → KyokuResultRecord
    → List Participant
    → List ℕ
    → Option ℕ
    → WinResult
    → Outcome String (Unit {0})
check_win rules r roster winners previous w = do
  reject_if (ltb 4 (length w.melds) || not (length w.concealed + length w.melds * 3 == 14))
      "invalid completed hand size"
  reject_if (any (is_foreign_tile r.mode) (named_tiles w))
      "result contains an invalid tile for its mode"
  reject_if (any (is_from_outside (length roster)) w.melds)
      "result contains an invalid meld source seat for its mode"
  reject_if (not (is_placed r roster winners previous w))
      "invalid winner identity, position or order"
  reject_if (not (all_new [] (hand_tiles w))) "duplicate physical tile in completed hand"
  check_melds r.mode w.seat w.melds
  reject_if (not (rules.is_agari (map (λ t. t / 4) w.concealed)))
      "concealed tiles do not complete a winning hand"
  check_yaku rules w
  check_points rules r.mode w

unfoldable pub check_wins :
    Rules
    → KyokuResultRecord
    → List Participant
    → List ℕ
    → Option ℕ
    → List WinResult
    → Outcome String (Unit {0})
check_wins rules r roster winners previous [] = ok tt
check_wins rules r roster winners previous (w ∷ ws) = do
  check_win rules r roster winners previous w
  check_wins rules r roster (w.seat ∷ winners) (some w.event_index) ws

unfoldable pub validate_record :
    Rules → KyokuResultRecord → List Participant → Outcome String (Unit {0})
validate_record rules r roster = do
  reject_if
      (not (r.version == 1)
        || r.kyoku_sequence == 0
        || not (length roster == seat_count r.mode)
        || not (length r.settlement.changes == length roster))
      "invalid result version, sequence or roster size"
  check_changes r.settlement.changes [] 0 roster
  check_draw r (length roster)
  check_wins rules r roster [] none r.wins
