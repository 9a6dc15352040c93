-- ===== src/Machine/Ranking.antt =====
-- crates/double_riichi_core/src/match_machine.rs: the final result of a match. The seats are sorted
-- together with their scores, and an index out of range is a panic.
use driichi.Domain.Mode.{GameMode, new_seat, seat_count, as_str}
use driichi.Domain.Roster.{ParticipantId, Participant, MatchPlayerResult, MatchResult}
use driichi.Results.Order.{Standing, standings, before}
use driichi.Results.Final.{is_blank}
use driichi.Prelude.Decimal.{decimal, cat}
use driichi.Prelude.{
  ◌==◌, not, any, str_eq, reject_if, ◌>>◌, ℕ, zero, suc, List, [], ◌∷◌, length, get_elem?, String,
  if◌then◌else◌, Outcome, ok, expect, ◌>>=◌,
}
use driichi.Prelude.Int.{ℤ}

-- `sort_by_key` with the key of a seat: its score downwards, then the seat.
unfoldable pub insert_standing : Standing → List Standing → List Standing
insert_standing a [] = a ∷ []
insert_standing a (b ∷ bs) = if before b a then b ∷ insert_standing a bs else a ∷ b ∷ bs

unfoldable pub sort_standings : List Standing → List Standing
sort_standings [] = []
sort_standings (a ∷ as') = insert_standing a (sort_standings as')

-- `vec![0; n]`, and an assignment to an index.
unfoldable pub zeros : ℕ → List ℕ
zeros zero = []
zeros (suc n) = 0 ∷ zeros n

unfoldable pub set_at : ℕ → ℕ → List ℕ → List ℕ
set_at i v [] = []
set_at zero v (x ∷ xs) = v ∷ xs
set_at (suc i) v (x ∷ xs) = x ∷ set_at i v xs

-- The loop over the sorted seats; a rank is an `u8`, and there are at most four.
unfoldable pub assign_ranks : ℕ → List Standing → List ℕ → List ℕ
assign_ranks rank [] ranks = ranks
assign_ranks rank ((_, seat) ∷ rest) ranks =
    assign_ranks (suc rank) rest (set_at seat (suc rank) ranks)

unfoldable pub ranks_of : List ℤ → List ℕ
ranks_of scores = assign_ranks 0 (sort_standings (standings 0 scores)) (zeros (length scores))

unfoldable pub build_player : List ℤ → List ℕ → ℕ → Participant → Outcome String MatchPlayerResult
build_player scores ranks index p = do
  seat ← expect (new_seat index)
  score ← expect (get_elem? scores index)
  rank ← expect (get_elem? ranks index)
  ok (record {
    participant_id = p.id;
    display_name = p.display_name;
    kind = p.kind;
    seat = seat;
    final_score = score;
    rank = rank;
  })

unfoldable pub build_players :
    List ℤ → List ℕ → ℕ → List Participant → Outcome String (List MatchPlayerResult)
build_players scores ranks index [] = ok []
build_players scores ranks index (p ∷ ps) = do
  r ← build_player scores ranks index p
  rs ← build_players scores ranks (suc index) ps
  ok (r ∷ rs)

unfoldable pub build_result : GameMode → List ℤ → List Participant → Outcome String MatchResult
build_result mode scores players = do
  results ← build_players scores (ranks_of scores) 0 players
  ok (record { mode = mode; players = results; final_scores = scores })

-- The loop of `validate_participants`, with the identifiers that it has seen.
unfoldable pub check_participants :
    List ParticipantId → List Participant → Outcome String (Unit {0})
check_participants seen [] = ok tt
check_participants seen (p ∷ ps) = do
  reject_if (is_blank p.display_name) "display name must not be empty"
  reject_if (any (str_eq p.id) seen) (cat "duplicate participant " p.id)
  check_participants (p.id ∷ seen) ps

-- An error is the text of `InvalidParticipants`.
unfoldable pub validate_participants : GameMode → List Participant → Outcome String (Unit {0})
validate_participants mode players = do
  reject_if (not (length players == seat_count mode)) (
      cat (as_str mode) (
        cat " requires "
          (cat (decimal (seat_count mode)) (cat " participants, got " (decimal (length players))))))
  check_participants [] players
