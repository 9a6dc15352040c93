-- ===== src/Results/Final.antt =====
-- crates/double_riichi_core/src/results.rs: the check of a match's final result. The sets of
-- identifiers and ranks that the loop has seen are lists.
use driichi.Domain.Mode.{seat_count, range}
use driichi.Domain.Roster.{ParticipantId, MatchPlayerResult, MatchResult}
use driichi.Room.Names.{trim_start, trim_end, is_empty}
use driichi.Prelude.{
  ℕ, suc, ◌+◌, Bool, false, not, ◌&&◌, ◌||◌, none, some, List, [], ◌∷◌, String, str_eq, ltb, ◌==◌,
  any, count, length, get_elem?, if◌then◌else◌, Outcome, ok, err, expect, reject_if, ◌>>=◌, ◌>>◌,
}
use driichi.Prelude.Int.{ℤ, eqb_ℤ, ltb_ℤ}

-- Whether the player of one seat stands before that of another: a higher score, or the same and an
-- earlier seat. A missing score is an index out of range.
unfoldable pub stands_before : List ℤ → ℤ → ℕ → ℕ → Bool
stands_before scores score seat other = elim (get_elem? scores other) [
  | none ↦ false
  | some other_score ↦ ltb_ℤ score other_score || (eqb_ℤ other_score score && ltb other seat)
]

-- The rank of a seat by counting.
unfoldable pub counted_rank : ℕ → List ℤ → ℤ → ℕ → ℕ
counted_rank seats scores score seat = 1 + count (stands_before scores score seat) (range 0 seats)

-- `trim().is_empty()`.
abbrev pub is_blank : String → Bool
is_blank text = is_empty (trim_end (trim_start text))

-- One round of the loop, with what it has seen.
unfoldable pub validate_player :
    ℕ → List ℤ → ℕ → List ParticipantId → List ℕ → MatchPlayerResult → Outcome String (Unit {0})
validate_player seats scores seat ids ranks p = do
  score ← expect (get_elem? scores seat)
  reject_if
      (not (p.seat == seat)
        || any (str_eq p.participant_id) ids
        || str_eq p.participant_id ""
        || is_blank p.display_name
        || not (eqb_ℤ p.final_score score)
        || any (λ r. r == p.rank) ranks
        || p.rank == 0
        || ltb seats p.rank)
      "invalid final seat, rank or identity"
  reject_if (not (p.rank == counted_rank seats scores p.final_score seat)) "incorrect final rank"
  ok tt

unfoldable pub validate_players :
    ℕ
    → List ℤ
    → ℕ
    → List ParticipantId
    → List ℕ
    → List MatchPlayerResult
    → Outcome String (Unit {0})
validate_players seats scores seat ids ranks [] = ok tt
validate_players seats scores seat ids ranks (p ∷ ps) =
    validate_player seats scores seat ids ranks p
    >> validate_players seats scores (suc seat) (p.participant_id ∷ ids) (p.rank ∷ ranks) ps

unfoldable pub validate : MatchResult → Outcome String (Unit {0})
validate result =
    let seats = seat_count result.mode in
    if not (length result.players == seats) || not (length result.final_scores == seats)
    then err "invalid final result count"
    else validate_players seats result.final_scores 0 [] [] result.players
