-- ===== src/Results/HandLaws.antt =====
-- What the check of a hand's results ensures.
use driichi.Domain.Mode.{GameMode, Seat, seat_count}
use driichi.Domain.Tile.{Tile, from_id, is_valid_for}
use driichi.Domain.Roster.{Participant, ParticipantId}
use driichi.Results.Types.{WinResult, ScoreChange, KyokuResultRecord}
use driichi.Results.Melds.{check_melds, hand_tiles, named_tiles, is_foreign_tile, all_new}
use driichi.Results.Scoring.{Rules, check_yaku, check_points, win_basic_points}
use driichi.Results.Hand.{
  bool_eq, check_changes, check_draw, is_winner, is_later, is_placed, is_from_outside, check_win,
  check_wins, validate_record,
}
use driichi.Results.Settlement.{IsChange, check_changes-IsChange}
use driichi.Prelude.{
  ℕ, ◌+◌, ◌*◌, ◌/◌, ◌<◌, ◌≡◌, ◌≢◌, ◌⊎◌, sym, ap, subst, Bool, true, false, not, ◌||◌, Option, none,
  some, List, [], ◌∷◌, map, String, eq_iff, any, ltb, ◌==◌, length, get_elem?, All, All-mono,
  if◌then◌else◌, Outcome, ok, err, panic, reject_if, ◌>>=◌, reject-ok, bind-ok, Bool-cases,
  Option-cases, inl, inr, arith,
}

-- No two are the same.
abbrev pub Apart : List ℕ → Type 0
Apart [] = Unit
Apart (t ∷ ts) = All (λ s. t ≢ s) ts × Apart ts

any-All : {A : Type 0} (p : A → Bool) (xs : List A) → any p xs ≡ false → All (λ x. p x ≡ false) xs
any-All p [] h = tt
any-All p (x ∷ xs) h = (ground arith, any-All p xs (ground arith))

all_new-Apart :
    (seen ts : List ℕ) → all_new seen ts ≡ true → All (λ t. All (λ s. s ≢ t) seen) ts × Apart ts
unfolding all_new
all_new-Apart seen [] h = (tt, tt)
all_new-Apart seen (t ∷ ts) h =
    let (later, apart) = all_new-Apart (t ∷ seen) ts (ground arith) in
    let here : All (λ s. (s == t) ≡ false) seen = any-All (λ s. s == t) seen (ground arith) in
    (
      (All-mono seen (λ s e. ground arith) here, All-mono ts (λ u l. l.1) later),
      (All-mono ts (λ u l. l.0) later, apart),
    )

-- A win of a hand of these players.
pub record IsWin (rules : Rules) (r : KyokuResultRecord) (roster : List Participant) (w : WinResult)
    : Type 0 where
  pub size : length w.concealed + length w.melds * 3 ≡ 14
  pub tiles : All (λ t. (t < 136) × (is_valid_for t r.mode ≡ true)) (named_tiles w)
  pub physical : Apart (hand_tiles w)
  pub complete : rules.is_agari (map (λ t. t / 4) w.concealed) ≡ true
  pub winner : (p : Participant) × (get_elem? roster w.seat ≡ some p) × (w.winner ≡ p.id)
  pub tsumo : w.tsumo ≡ (w.seat == w.target)
  pub points : (dealer : Bool) × (win_basic_points rules w r.mode dealer ≡ ok w.win_points)

-- The wins are in the order of their events, and each seat has one at most.
abbrev pub Rising : List WinResult → Type 0
Rising [] = Unit
Rising (w ∷ ws) = All (λ v. (w.event_index < v.event_index) × (w.seat ≢ v.seat)) ws × Rising ws

abbrev Later : Option ℕ → ℕ → Type 0
Later none index = Unit
Later (some previous) index = previous < index

is_foreign_tile-valid :
    (mode : GameMode) (t : Tile)
    → is_foreign_tile mode t ≡ false
    → (t < 136) × (is_valid_for t mode ≡ true)
unfolding is_foreign_tile from_id
is_foreign_tile-valid mode t h = (ground arith, ground arith)

is_winner-found :
    (roster : List Participant) (seat : Seat) (id : ParticipantId)
    → is_winner roster seat id ≡ true
    → (p : Participant) × (get_elem? roster seat ≡ some p) × (id ≡ p.id)
is_winner-found roster seat id h = elim (Option-cases (get_elem? roster seat)) [
  | inl e ↦ absurd (ground arith)
  | inr (p, e) ↦ (p, e, ground (arith, eq_iff id p.id))
]

bool_eq-same : (a b : Bool) → bool_eq a b ≡ true → a ≡ b
bool_eq-same true b h = sym h
bool_eq-same false b h = ground arith

is_later-Later :
    (previous : Option ℕ) (index : ℕ) → is_later previous index ≡ true → Later previous index
is_later-Later none index h = tt
is_later-Later (some k) index h = ground arith

paid_by :
    (child dealer : Outcome String ℕ) (points : ℕ) (why : String)
    → (do
      c ← child
      if c == points then ok tt else (do d ← dealer; reject_if (not (d == points)) why))
      ≡ ok tt
    → (child ≡ ok points) ⊎ (dealer ≡ ok points)
paid_by panic dealer points why h = cc
paid_by (err _) dealer points why h = cc
paid_by (ok c) dealer points why h = elim (Bool-cases (c == points)) [
  | inl e ↦ inl (ap ok (ground arith))
  | inr e ↦ inr (
      by_dealer dealer (
        subst
          (λ b. (if b then ok tt else (do d ← dealer; reject_if (not (d == points)) why)) ≡ ok tt) e
          h))
]
  where
    by_dealer :
        (dealer : Outcome String ℕ)
        → (do d ← dealer; reject_if (not (d == points)) why) ≡ ok tt
        → dealer ≡ ok points
    by_dealer panic h = cc
    by_dealer (err _) h = cc
    by_dealer (ok d) h = elim (Bool-cases (d == points)) [
      | inl e ↦ ap ok (ground arith)
      | inr e ↦ absurd (ground arith)
    ]

check_points-paid :
    (rules : Rules) (mode : GameMode) (w : WinResult)
    → check_points rules mode w ≡ ok tt
    → (dealer : Bool) × (win_basic_points rules w mode dealer ≡ ok w.win_points)
unfolding check_points
check_points-paid rules mode w h =
    elim (paid_by (win_basic_points rules w mode false) (win_basic_points rules w mode true)
      w.win_points _ h) [ inl e ↦ (false, e) | inr e ↦ (true, e) ]

-- What the loop has seen is before the wins that it has not.
abbrev Follows : List ℕ → Option ℕ → WinResult → Type 0
Follows winners previous w = All (λ s. s ≢ w.seat) winners × Later previous w.event_index

check_win-IsWin :
    (rules : Rules) (r : KyokuResultRecord) (roster : List Participant) (winners : List ℕ)
    (previous : Option ℕ) (w : WinResult)
    → check_win rules r roster winners previous w ≡ ok tt
    → IsWin rules r roster w × Follows winners previous w
unfolding check_win is_placed
check_win-IsWin rules r roster winners previous w h =
    let (size, h1) =
      reject-ok (ltb 4 (length w.melds) || not (length w.concealed + length w.melds * 3 == 14)) _ _
        h in
    let (tiles, h2) = reject-ok (any (is_foreign_tile r.mode) (named_tiles w)) _ _ h1 in
    let (_, h3) = reject-ok (any (is_from_outside (length roster)) w.melds) _ _ h2 in
    let (placed, h4) = reject-ok (not (is_placed r roster winners previous w)) _ _ h3 in
    let (physical, h5) = reject-ok (not (all_new [] (hand_tiles w))) _ _ h4 in
    let (_, _, h6) = bind-ok (check_melds r.mode w.seat w.melds) _ h5 in
    let (agari, h7) = reject-ok (not (rules.is_agari (map (λ t. t / 4) w.concealed))) _ _ h6 in
    let (_, _, paid) = bind-ok (check_yaku rules w) _ h7 in
    (
      record {
        size = ground arith;
        tiles =
            All-mono (named_tiles w) (is_foreign_tile-valid r.mode)
              (any-All (is_foreign_tile r.mode) (named_tiles w) tiles);
        physical = (all_new-Apart [] (hand_tiles w) (ground arith)).1;
        complete = ground arith;
        winner = is_winner-found roster w.seat w.winner (ground arith);
        tsumo = bool_eq-same w.tsumo (w.seat == w.target) (ground arith);
        points = check_points-paid rules r.mode w paid;
      },
      (
        All-mono winners (λ s e. ground arith) (any-All (λ s. s == w.seat) winners (ground arith)),
        is_later-Later previous w.event_index (ground arith),
      ),
    )

Later-Later : (previous : Option ℕ) (a b : ℕ) → Later previous a → a < b → Later previous b
Later-Later none a b h k = tt
Later-Later (some p) a b h k = omega (arith, h, k)

check_wins-Rising :
    (rules : Rules) (r : KyokuResultRecord) (roster : List Participant) (winners : List ℕ)
    (previous : Option ℕ) (ws : List WinResult)
    → check_wins rules r roster winners previous ws ≡ ok tt
    → All (IsWin rules r roster) ws × All (Follows winners previous) ws × Rising ws
unfolding check_wins
check_wins-Rising rules r roster winners previous [] h = (tt, tt, tt)
check_wins-Rising rules r roster winners previous (w ∷ ws) h =
    let (_, now, rest) = bind-ok (check_win rules r roster winners previous w) _ h in
    let (win, follows) = check_win-IsWin rules r roster winners previous w now in
    let (wins, after, rising) =
      check_wins-Rising rules r roster (w.seat ∷ winners) (some w.event_index) ws rest in
    (
      (win, wins),
      (
        follows,
        All-mono ws (λ v l. (l.0.1, Later-Later previous w.event_index v.event_index follows.1 l.1))
            after,
      ),
      (All-mono ws (λ v l. (l.1, l.0.0)) after, rising),
    )

-- A hand's record that passes its check, with any rules, is one of the roster: each participant has
-- a change at its own seat, whose score after is exactly the score before with the change. Each win is
-- a hand of 14 tiles, three for each meld, all of them tiles of the mode and no two the same, which the
-- rules find complete; its winner is the participant of its seat, it is a tsumo exactly if the winner
-- is its target, and its points are what the rules give to the dealer or to another seat. The wins are
-- in the order of their events, and no seat has two.
pub validate_record-IsWin :
    (rules : Rules) (r : KyokuResultRecord) (roster : List Participant) (i : ℕ) (p : Participant)
    → validate_record rules r roster ≡ ok tt
    → get_elem? roster i ≡ some p
    → ((c : ScoreChange) × (get_elem? r.settlement.changes i ≡ some c) × IsChange i p c)
      × All (IsWin rules r roster) r.wins
      × Rising r.wins
unfolding validate_record
validate_record-IsWin rules r roster i p h g =
    let (_, h1) =
      reject-ok
        (not (r.version == 1)
          || r.kyoku_sequence == 0
          || not (length roster == seat_count r.mode)
          || not (length r.settlement.changes == length roster))
        _ _ h in
    let (_, changes, h2) = bind-ok (check_changes r.settlement.changes [] 0 roster) _ h1 in
    let (_, _, wins) = bind-ok (check_draw r (length roster)) _ h2 in
    let (each, _, rising) = check_wins-Rising rules r roster [] none r.wins wins in
    let here : 0 + i ≡ i = omega arith in
    (
      subst (λ n. (c : ScoreChange) × (get_elem? r.settlement.changes n ≡ some c) × IsChange n p c)
          here (check_changes-IsChange r.settlement.changes [] 0 i roster p changes g),
      each,
      rising,
    )
