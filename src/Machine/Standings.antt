-- ===== src/Machine/Standings.antt =====
-- The final result that a match builds passes the check of final results.
use driichi.Domain.Mode.{
  GameMode, new_seat, seat_count, four_player_red_east, four_player_red_half, three_player_red_east,
  three_player_red_half,
}
use driichi.Domain.Roster.{ParticipantId, Participant, MatchPlayerResult, MatchResult}
use driichi.Results.Final.{is_blank, validate_player, validate_players, validate}
use driichi.Results.Order.{standings, ahead, ahead-lt, ahead-injective, counted_rank-ahead}
use driichi.Machine.Ranking.{
  ranks_of, build_player, build_players, build_result, check_participants, validate_participants,
}
use driichi.Machine.RankingLaws.{In-standings, get-ranks_of}
use driichi.Prelude.{
  ℕ, zero, suc, ◌+◌, ◌≤◌, ◌<◌, ◌≡◌, ◌≢◌, refl, ap, subst, ◌∙◌, false, not, ◌||◌, some, List, [],
  ◌∷◌, err, In, All, All-mono, str_eq, length, any, get_elem?, ◌==◌, if◌then◌else◌, ok, reject-ok,
  arith,
}
use driichi.Prelude.Int.{ℤ, eqb_ℤ_refl}

get_inside : (xs : List ℤ) (i : ℕ) → i < length xs → (x : ℤ) × (get_elem? xs i ≡ some x)
get_inside [] i h = absurd (omega (arith, h))
get_inside (x ∷ xs) zero h = (x, refl)
get_inside (x ∷ xs) (suc i) h = get_inside xs i (omega arith)

module _ (scores : List ℤ) where
  abbrev rank_at : ℤ → ℕ → ℕ
  rank_at score seat = suc (ahead (score, seat) (standings 0 scores))

  -- The rank of some seat before a given one.
  abbrev Earlier : ℕ → ℕ → Type 0
  Earlier seat rank =
      (j : ℕ) × (score : ℤ) × (j < seat)
      × (get_elem? scores j ≡ some score)
      × (rank ≡ rank_at score j)

  In-standings_at :
      (score : ℤ) (seat : ℕ)
      → get_elem? scores seat ≡ some score
      → In (score, seat) (standings 0 scores)
  In-standings_at score seat h =
      let e : 0 + seat ≡ seat = omega arith in rw e at (In-standings 0 seat scores score h)

  rank_new :
      (score : ℤ) (seat : ℕ) (ranks : List ℕ)
      → get_elem? scores seat ≡ some score
      → All (Earlier seat) ranks
      → any (λ r. r == rank_at score seat) ranks ≡ false
  rank_new score seat [] h seen = refl
  rank_new score seat (r ∷ ranks) h seen =
      let ((j, other, early, g, e), rest) = seen in
      let ih = rank_new score seat ranks h rest in
      let apart : r ≢ rank_at score seat = λ same. absurd (
        omega (
          arith,
          ahead-injective (other, j) (score, seat) (standings 0 scores) (In-standings_at other j g)
              (In-standings_at score seat h) (omega arith),
        )) in
      ground arith

  length-standings : (start : ℕ) (xs : List ℤ) → length (standings start xs) ≡ length xs
  length-standings start [] = refl
  length-standings start (x ∷ xs) = ap suc (length-standings (suc start) xs)

  step_ok :
      (score : ℤ) (seat : ℕ) (ids : List ParticipantId) (ranks : List ℕ) (p : Participant)
      → get_elem? scores seat ≡ some score
      → any (str_eq p.id) ids ≡ false
      → str_eq p.id "" ≡ false
      → is_blank p.display_name ≡ false
      → All (Earlier seat) ranks
      → validate_player (length scores) scores seat ids ranks (record {
        participant_id = p.id;
        display_name = p.display_name;
        kind = p.kind;
        seat = seat;
        final_score = score;
        rank = rank_at score seat;
      })
        ≡ ok tt
  unfolding validate_player
  step_ok score seat ids ranks p h fresh named shown seen =
      let bound = ahead-lt (score, seat) (standings 0 scores) (In-standings_at score seat h) in
      ground (
        arith,
        counted_rank-ahead scores score seat,
        eqb_ℤ_refl score,
        rank_new score seat ranks h seen,
        length-standings 0 scores,
      )

  build_ok :
      (score : ℤ) (seat : ℕ) (p : Participant)
      → get_elem? scores seat ≡ some score
      → seat < 4
      → build_player scores (ranks_of scores) seat p
        ≡ ok (record {
          participant_id = p.id;
          display_name = p.display_name;
          kind = p.kind;
          seat = seat;
          final_score = score;
          rank = rank_at score seat;
        })
  unfolding build_player new_seat
  build_ok score seat p g small = ground (arith, get-ranks_of scores score seat g)

  Earlier-later : (seat r : ℕ) → Earlier seat r → Earlier (suc seat) r
  Earlier-later seat r (j, score, early, g, e) = (j, score, omega arith, g, e)

  -- The whole loop, for a roster that passed its own check.
  players_ok :
      (seat : ℕ) (ids : List ParticipantId) (ranks : List ℕ) (ps : List Participant)
      → seat + length ps ≡ length scores
      → length scores ≤ 4
      → check_participants ids ps ≡ ok tt
      → All (λ p. str_eq p.id "" ≡ false) ps
      → All (Earlier seat) ranks
      → (results : List MatchPlayerResult) × (build_players scores (ranks_of scores) seat ps
          ≡ ok results)
        × (length results ≡ length ps)
        × (validate_players (length scores) scores seat ids ranks results ≡ ok tt)
  unfolding check_participants build_players validate_players
  players_ok seat ids ranks [] e small h named seen = ([], refl, refl, refl)
  players_ok seat ids ranks (p ∷ ps) e small h named seen =
      let (score, g) = get_inside scores seat (omega arith) in
      let (shown, h1) = reject-ok (is_blank p.display_name) _ _ h in
      let (fresh, h2) = reject-ok (any (str_eq p.id) ids) _ _ h1 in
      let rank = rank_at score seat in
      let (results, built, same, valid) =
        players_ok (suc seat) (p.id ∷ ids) (rank ∷ ranks) ps (omega arith) small h2 named.1
          ((seat, score, omega arith, g, refl), All-mono ranks (Earlier-later seat) seen) in
      let result : MatchPlayerResult = record {
        participant_id = p.id;
        display_name = p.display_name;
        kind = p.kind;
        seat = seat;
        final_score = score;
        rank = rank;
      } in
      let first = build_ok score seat p g (omega arith) in
      (
        result ∷ results,
        rw (first, built) refl,
        ap suc same,
        rw (step_ok score seat ids ranks p g fresh named.0 shown seen) valid,
      )

seat_count_le : (mode : GameMode) → seat_count mode ≤ 4
unfolding seat_count
seat_count_le four_player_red_east = omega arith
seat_count_le four_player_red_half = omega arith
seat_count_le three_player_red_east = omega arith
seat_count_le three_player_red_half = omega arith

validate_of :
    (mode : GameMode) (scores : List ℤ) (results : List MatchPlayerResult)
    → length scores ≡ seat_count mode
    → length results ≡ seat_count mode
    → validate_players (length scores) scores 0 [] [] results ≡ ok tt
    → validate (record { mode = mode; players = results; final_scores = scores }) ≡ ok tt
unfolding validate
validate_of mode scores results e f h =
    subst
      (λ n.
        (if not (length results == n) || not (length scores == n)
          then err "invalid final result count"
          else validate_players n scores 0 [] [] results)
        ≡ ok tt)
      e (ground arith)

-- For a roster that a match accepts, with identifiers that are not empty, and as many scores as
-- seats, building the final result never panics, and the result passes the check of final results:
-- the ranks that sorting gives are the ranks by counting.
pub build_result-validates :
    (mode : GameMode) (scores : List ℤ) (players : List Participant)
    → length scores ≡ seat_count mode
    → validate_participants mode players ≡ ok tt
    → All (λ p. str_eq p.id "" ≡ false) players
    → (result : MatchResult) × (build_result mode scores players ≡ ok result)
      × (validate result ≡ ok tt)
unfolding build_result validate validate_participants
build_result-validates mode scores players as_many h named =
    let (full, checked) = reject-ok (not (length players == seat_count mode)) _ _ h in
    let small = seat_count_le mode in
    let (results, built, same, valid) =
      players_ok scores 0 [] [] players (ground arith) (omega arith) checked named tt in
    (
      record { mode = mode; players = results; final_scores = scores },
      rw built refl,
      validate_of mode scores results as_many (same ∙ ground arith) valid,
    )
