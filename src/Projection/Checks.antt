-- ===== src/Projection/Checks.antt =====
-- A table that is built has passed its checks, and they stay true of it.
use driichi.Domain.Mode.{GameMode, seat_count}
use driichi.Domain.Tile.{Tile, is_valid_for}
use driichi.Decision.Types.{Decision}
use driichi.Projection.Table.{
  MeldState, TablePlayerState, TableState, meld_tiles, check_tiles, check_players, new_table,
  with_scores, with_settlement_state, with_decision,
}
use driichi.Prelude.{
  ℕ, suc, ◌≡◌, refl, ap, ◌∙◌, true, not, List, [], ◌∷◌, ◌++◌, length, find, find-none, All,
  All-mono, ◌==◌, ok, bind-ok, reject-ok, Option-cases, inl, inr, arith,
}
use driichi.Prelude.Int.{ℤ}

abbrev pub AllValid : GameMode → List Tile → Type 0
AllValid mode tiles = All (λ t. is_valid_for t mode ≡ true) tiles

-- The tiles of a player's hand, discards and melds are tiles of the mode.
pub record HasTiles (mode : GameMode) (p : TablePlayerState) : Type 0 where
  pub hand : AllValid mode p.hand
  pub discards : AllValid mode p.discards
  pub melds : All (λ m. AllValid mode m.tiles) p.melds

-- The seats run on from an index, and the players' tiles are tiles of the mode.
abbrev pub AreSeated : GameMode → ℕ → List TablePlayerState → Type 0
AreSeated mode index [] = Unit
AreSeated mode index (p ∷ ps) = ((p.seat ≡ index) × HasTiles mode p) × AreSeated mode (suc index) ps

pub record IsTable (s : TableState) : Type 0 where
  pub full : length s.players ≡ seat_count s.mode
  pub seated : AreSeated s.mode 0 s.players
  pub indicators : AllValid s.mode s.dora_indicators

check_tiles-AllValid :
    (mode : GameMode) (tiles : List Tile) → check_tiles mode tiles ≡ ok tt → AllValid mode tiles
unfolding check_tiles
check_tiles-AllValid mode tiles h =
    elim (Option-cases (find (λ t. not (is_valid_for t mode)) tiles)) [
      | inl e ↦
          All-mono tiles (λ t k. ground arith) (find-none (λ t. not (is_valid_for t mode)) tiles e)
      | inr (t, e) ↦ absurd (ground arith)
    ]

All-split : {A : Type 0} (P : A → Type 0) (xs ys : List A) → All P (xs ++ ys) → All P xs × All P ys
All-split P [] ys h = (tt, h)
All-split P (x ∷ xs) ys h = let (left, right) = All-split P xs ys h.1 in ((h.0, left), right)

melds-AllValid :
    (mode : GameMode) (melds : List MeldState)
    → AllValid mode (meld_tiles melds)
    → All (λ m. AllValid mode m.tiles) melds
unfolding meld_tiles
melds-AllValid mode [] h = tt
melds-AllValid mode (m ∷ ms) h =
    let (here, rest) = All-split (λ t. is_valid_for t mode ≡ true) m.tiles (meld_tiles ms) h in
    (here, melds-AllValid mode ms rest)

tiles-HasTiles :
    (mode : GameMode) (p : TablePlayerState)
    → AllValid mode (p.hand ++ (p.discards ++ meld_tiles p.melds))
    → HasTiles mode p
tiles-HasTiles mode p h =
    let P = λ (t : Tile). is_valid_for t mode ≡ true in
    let (hand, rest) = All-split P p.hand (p.discards ++ meld_tiles p.melds) h in
    let (discards, melds) = All-split P p.discards (meld_tiles p.melds) rest in
    record { hand = hand; discards = discards; melds = melds-AllValid mode p.melds melds }

check_players-AreSeated :
    (mode : GameMode) (index : ℕ) (ps : List TablePlayerState)
    → check_players mode index ps ≡ ok tt
    → AreSeated mode index ps
unfolding check_players
check_players-AreSeated mode index [] h = tt
check_players-AreSeated mode index (p ∷ ps) h =
    let (seat, h1) = reject-ok (not (p.seat == index)) _ _ h in
    let (_, tiles, h2) =
      bind-ok (check_tiles mode (p.hand ++ (p.discards ++ meld_tiles p.melds)))
        (λ _. check_players mode (suc index) ps) h1 in
    (
      (ground arith, tiles-HasTiles mode p (check_tiles-AllValid mode _ tiles)),
      check_players-AreSeated mode (suc index) ps h2,
    )

with_scores-AreSeated :
    (mode : GameMode) (index : ℕ) (ps : List TablePlayerState) (scores : List ℤ)
    → AreSeated mode index ps
    → AreSeated mode index (with_scores ps scores)
unfolding with_scores
with_scores-AreSeated mode index [] scores h = tt
with_scores-AreSeated mode index (p ∷ ps) [] h = h
with_scores-AreSeated mode index (p ∷ ps) (x ∷ xs) h = (
  (h.0.0, record { hand = h.0.1.hand; discards = h.0.1.discards; melds = h.0.1.melds }),
  with_scores-AreSeated mode (suc index) ps xs h.1,
)

length-with_scores :
    (ps : List TablePlayerState) (scores : List ℤ) → length (with_scores ps scores) ≡ length ps
unfolding with_scores
length-with_scores [] scores = refl
length-with_scores (p ∷ ps) [] = refl
length-with_scores (p ∷ ps) (x ∷ xs) = ap suc (length-with_scores ps xs)

-- A table that is built has as many players as its mode has seats, in the order of the seats, and
-- the tiles of every hand, of the discards and of every meld, and the dora indicators, are tiles of
-- the mode. A settlement and a decision keep that. Of the tile that a meld was called with nothing is
-- said.
pub new_table-IsTable :
    (mode : GameMode) (players : List TablePlayerState) (dora_indicators : List Tile)
    (s : TableState) (scores : List ℤ) (pot : ℕ) (d : Decision)
    → new_table mode players dora_indicators ≡ ok s
    → IsTable s × IsTable (with_settlement_state s scores pot) × IsTable (with_decision s d)
unfolding new_table with_settlement_state with_decision
new_table-IsTable mode players dora_indicators s scores pot d h =
    let (full, h1) = reject-ok (not (length players == seat_count mode)) _ _ h in
    let (_, seated, h2) = bind-ok (check_players mode 0 players) _ h1 in
    let (_, tiles, h3) = bind-ok (check_tiles mode dora_indicators) _ h2 in
    let same_mode : s.mode ≡ mode = ground arith in
    let same_players : s.players ≡ players = ground arith in
    let same_tiles : s.dora_indicators ≡ dora_indicators = ground arith in
    let table : IsTable s =
      rw (same_mode, same_players, same_tiles)
        (record {
          full = ground arith;
          seated = check_players-AreSeated mode 0 players seated;
          indicators = check_tiles-AllValid mode dora_indicators tiles;
        }) in
    (
      table,
      record {
        full = length-with_scores s.players scores ∙ table.full;
        seated = with_scores-AreSeated s.mode 0 s.players scores table.seated;
        indicators = table.indicators;
      },
      record { full = table.full; seated = table.seated; indicators = table.indicators },
    )
