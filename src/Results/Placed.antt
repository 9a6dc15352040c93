-- ===== src/Results/Placed.antt =====
-- A final result that passes its check has each player at its own rank.
use driichi.Domain.Mode.{seat_count}
use driichi.Domain.Roster.{ParticipantId, MatchPlayerResult, MatchResult}
use driichi.Results.Final.{validate_player, validate_players, validate, counted_rank}
use driichi.Results.Order.{standings, ahead, counted_rank-ahead}
use driichi.Prelude.{
  ℕ, zero, suc, ◌+◌, ◌≤◌, ◌≡◌, subst, some, List, [], ◌∷◌, length, get_elem?, ok, bind-ok,
  Option-cases, inl, inr, arith,
}
use driichi.Prelude.Int.{ℤ, eqb_ℤ-sound}

-- The player of a seat has that seat's score, and the rank that counting gives it.
abbrev pub Placed : ℕ → List ℤ → ℕ → MatchPlayerResult → Type 0
Placed seats scores seat p =
    (p.seat ≡ seat)
    × (get_elem? scores seat ≡ some p.final_score)
    × (p.rank ≡ counted_rank seats scores p.final_score seat)
    × (p.rank ≤ seats)

validate_player-Placed :
    (seats : ℕ) (scores : List ℤ) (seat : ℕ) (ids : List ParticipantId) (ranks : List ℕ)
    (p : MatchPlayerResult)
    → validate_player seats scores seat ids ranks p ≡ ok tt
    → Placed seats scores seat p
unfolding validate_player
validate_player-Placed seats scores seat ids ranks p h =
    elim (Option-cases (get_elem? scores seat)) [
      | inl e ↦ absurd (ground arith)
      | inr (score, e) ↦
          let same : p.final_score ≡ score = eqb_ℤ-sound p.final_score score (ground arith) in
          (ground arith, rw same e, ground arith, ground arith)
    ]

validate_players-Placed :
    (seats : ℕ) (scores : List ℤ) (seat : ℕ) (ids : List ParticipantId) (ranks : List ℕ)
    (ps : List MatchPlayerResult) (i : ℕ) (p : MatchPlayerResult)
    → validate_players seats scores seat ids ranks ps ≡ ok tt
    → get_elem? ps i ≡ some p
    → Placed seats scores (seat + i) p
unfolding validate_players
validate_players-Placed seats scores seat ids ranks [] i p h g = cc
validate_players-Placed seats scores seat ids ranks (q ∷ qs) zero p h g =
    let (_, first, rest) =
      bind-ok (validate_player seats scores seat ids ranks q)
        (λ _. validate_players seats scores (suc seat) (q.participant_id ∷ ids) (q.rank ∷ ranks) qs)
        h in
    let same : q ≡ p = cc in
    let here : seat ≡ seat + 0 = omega arith in
    subst (λ n. Placed seats scores n p) here
      (subst (Placed seats scores seat) same
        (validate_player-Placed seats scores seat ids ranks q first))
validate_players-Placed seats scores seat ids ranks (q ∷ qs) (suc i) p h g =
    let (_, first, rest) =
      bind-ok (validate_player seats scores seat ids ranks q)
        (λ _. validate_players seats scores (suc seat) (q.participant_id ∷ ids) (q.rank ∷ ranks) qs)
        h in
    let there : suc seat + i ≡ seat + suc i = omega arith in
    subst (λ n. Placed seats scores n p) there
      (validate_players-Placed seats scores (suc seat) (q.participant_id ∷ ids) (q.rank ∷ ranks) qs
        i p rest g)

-- In a final result that passes its check, the player at each index has that seat, the score
-- listed for it, and one more than the number of seats that stand before it as its rank, which is
-- at most the number of seats.
pub validate-Placed :
    (result : MatchResult) (i : ℕ) (p : MatchPlayerResult)
    → validate result ≡ ok tt
    → get_elem? result.players i ≡ some p
    → (p.seat ≡ i)
      × (get_elem? result.final_scores i ≡ some p.final_score)
      × (p.rank ≡ suc (ahead (p.final_score, i) (standings 0 result.final_scores)))
      × (p.rank ≤ seat_count result.mode)
unfolding validate
validate-Placed result i p h g =
    let placed =
      validate_players-Placed (seat_count result.mode) result.final_scores 0 [] [] result.players i
        p (ground arith) g in
    let here : 0 + i ≡ i = omega arith in
    let (seat, score, rank, low) =
      subst (λ n. Placed (seat_count result.mode) result.final_scores n p) here placed in
    let full : length result.final_scores ≡ seat_count result.mode = ground arith in
    (seat, score, ground (arith, counted_rank-ahead result.final_scores p.final_score i), low)
