-- ===== src/Results/Tests.antt =====
-- Tests of results, and the theorems at concrete results.
use driichi.Domain.Mode.{three_player_red_east, seat_count}
use driichi.Domain.Roster.{Participant, MatchPlayerResult, MatchResult, human}
use driichi.Results.Types.{mangan}
use driichi.Results.Score.{
  ordinary_limit, exact_points, ordinary_limit-exact, basic_points, rounded_fu,
}
use driichi.Results.Final.{validate, validate_players, validate_player, counted_rank, stands_before}
use driichi.Results.Types.{ordinary, pon, WinResult, ScoreChange, KyokuResultRecord}
use driichi.Domain.Tile.{from_id, is_valid_for}
use driichi.Results.Melds.{
  named_tiles, is_foreign_tile, all_new, check_melds, valid_tiles, is_set, sort_kinds, valid_source,
}
use driichi.Results.Scoring.{
  Rules, check_yaku, yaku_total, yaku_value, is_known, evaluation_total, check_points, is_scored,
  scored, win_basic_points,
}
use driichi.Results.Hand.{
  validate_record, check_changes, is_change, check_draw, check_wins, check_win, is_placed,
}
use driichi.Results.Settlement.{IsChange}
use driichi.Results.HandLaws.{IsWin, Rising, validate_record-IsWin}
use driichi.Results.Order.{ahead, standings}
use driichi.Results.Placed.{validate-Placed}
use driichi.Room.Names.{trim_start, trim_end, is_whitespace}
use driichi.Prelude.{
  All, List, true, false, ℕ, suc, ◌≤◌, ◌≡◌, refl, none, some, [], ◌∷◌, String, ltb, get_elem?,
  if◌then◌else◌, arith, ok,
}
use driichi.Prelude.Int.{ℤ, pos, negsuc, checked_add}

abbrev placed : String → ℕ → ℤ → ℕ → MatchPlayerResult
placed id seat score rank = record {
  participant_id = id;
  display_name = id;
  kind = human;
  seat = seat;
  final_score = score;
  rank = rank;
}

abbrev b : MatchPlayerResult
b = placed "b" 1 (pos 53000) 2

-- The first two have the same score, and the third has lost more than it had.
abbrev result : MatchResult
result = record {
  mode = three_player_red_east;
  players = placed "a" 0 (pos 53000) 1 ∷ b ∷ placed "c" 2 (negsuc 999) 3 ∷ [];
  final_scores = pos 53000 ∷ pos 53000 ∷ negsuc 999 ∷ [];
}

result_valid : validate result ≡ ok tt
unfolding validate validate_players validate_player counted_rank stands_before seat_count trim_end
    trim_start is_whitespace
result_valid = refl

-- 4 han and 30 fu are 1920 points, 4 han and 40 fu are 2560.
limits : (ordinary_limit 4 30 ∷ ordinary_limit 4 40 ∷ []) ≡ (none ∷ some mangan ∷ [])
unfolding ordinary_limit basic_points rounded_fu
limits = refl

ordinary_limit-exact_example :
    ordinary_limit 4 30 ≡ (if ltb 2000 (exact_points 4 30) then some mangan else none)
ordinary_limit-exact_example = ordinary_limit-exact 4 30 (omega arith) (omega arith)

validate-Placed_example :
    (b.seat ≡ 1)
    × (get_elem? result.final_scores 1 ≡ some b.final_score)
    × (b.rank ≡ suc (ahead (b.final_score, 1) (standings 0 result.final_scores)))
    × (b.rank ≤ seat_count three_player_red_east)
validate-Placed_example = validate-Placed result 1 b result_valid refl

abbrev guest : String → Participant
guest id = record { id = id; display_name = id; kind = human }

abbrev trio : List Participant
trio = guest "a" ∷ guest "b" ∷ guest "c" ∷ []

-- Rules by which every hand is complete and worth 1000.
abbrev rules : Rules
rules = record {
  is_agari = λ _. true;
  yaku_name = λ _. some "riichi";
  calculate_score = λ _ _ _ _ _ _. 1000;
}

-- Seat 1 wins from seat 2.
abbrev win : WinResult
win = record {
  event_index = 4;
  winner = "b";
  seat = 1;
  target = 2;
  tsumo = false;
  concealed = 40 ∷ 41 ∷ 42 ∷ 44 ∷ 48 ∷ 53 ∷ 60 ∷ 61 ∷ 62 ∷ 70 ∷ 71 ∷ [];
  melds =
      record {
        kind = pon;
        tiles = 100 ∷ 101 ∷ 102 ∷ [];
        opened = true;
        from_who = some 0;
        called_tile = some 101;
      }
      ∷ [];
  winning_tile = 42;
  winning_tile_index = 2;
  yaku = record { id = 1; name = "riichi"; han = some 1; yakuman_multiplier = none } ∷ [];
  evaluation = ordinary 1 30 none;
  win_points = 1000;
}

abbrev change : String → ℕ → ℤ → ℤ → ℤ → ScoreChange
change id seat before delta after = record {
  participant_id = id;
  seat = seat;
  before = before;
  delta = delta;
  after = after;
}

abbrev hand : KyokuResultRecord
hand = record {
  version = 1;
  kyoku_sequence = 1;
  mode = three_player_red_east;
  end_event_index = 6;
  wins = win ∷ [];
  settlement = record {
    changes =
        change "a" 0 (pos 35000) (pos 0) (pos 35000)
        ∷ change "b" 1 (pos 35000) (pos 1000) (pos 36000)
        ∷ change "c" 2 (pos 0) (negsuc 999) (negsuc 999)
        ∷ [];
    pot_before = 0;
    pot_after = 0;
    draw_reason = none;
  };
  draw_event_delta_adjustment = none;
}

hand_valid : validate_record rules hand trio ≡ ok tt
unfolding validate_record check_changes is_change checked_add check_draw check_wins check_win
    seat_count named_tiles is_foreign_tile from_id is_valid_for is_placed all_new check_melds
    valid_tiles is_set sort_kinds valid_source check_yaku yaku_total yaku_value is_known
    evaluation_total check_points is_scored scored win_basic_points
hand_valid = refl

validate_record-IsWin_example :
    ((c : ScoreChange) × (get_elem? hand.settlement.changes 2 ≡ some c) × IsChange 2 (guest "c") c)
    × All (IsWin rules hand trio) (win ∷ [])
    × Rising (win ∷ [])
validate_record-IsWin_example = validate_record-IsWin rules hand trio 2 (guest "c") hand_valid refl
