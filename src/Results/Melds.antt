-- ===== src/Results/Melds.antt =====
-- crates/double_riichi_core/src/results.rs: the check of a win's melds and tiles.
use driichi.Domain.Mode.{GameMode, Seat, is_three_player}
use driichi.Domain.Tile.{Tile, from_id, is_valid_for}
use driichi.Results.Types.{ResultMeldKind, ResultMeld, WinResult, chi, daiminkan, ankan, kakan}
use driichi.Prelude.{
  ℕ, ◌+◌, ◌/◌, Bool, true, false, not, ◌&&◌, ◌||◌, none, some, List, [], ◌∷◌, ◌++◌, map, String,
  any, all, ltb, leb, ◌==◌, is_some, length, if◌then◌else◌, Outcome, ok, reject_if, ◌>>◌,
}

abbrev pub is_kan : ResultMeldKind → Bool
is_kan daiminkan = true
is_kan ankan = true
is_kan kakan = true
is_kan _ = false

abbrev pub is_chi : ResultMeldKind → Bool
is_chi chi = true
is_chi _ = false

abbrev pub is_ankan : ResultMeldKind → Bool
is_ankan ankan = true
is_ankan _ = false

unfoldable insert_kind : ℕ → List ℕ → List ℕ
insert_kind k [] = k ∷ []
insert_kind k (x ∷ xs) = let rest = insert_kind k xs in if leb k x then k ∷ x ∷ xs else x ∷ rest

-- `sort_unstable` of the kinds.
unfoldable pub sort_kinds : List ℕ → List ℕ
unfolding insert_kind
sort_kinds [] = []
sort_kinds (x ∷ xs) = insert_kind x (sort_kinds xs)

-- A meld has three tiles here, or the check before has refused it.
unfoldable pub is_run : List ℕ → Bool
is_run (a ∷ b ∷ c ∷ []) = ltb a 27 && a / 9 == c / 9 && b == a + 1 && c == b + 1
is_run _ = false

unfoldable pub is_set : List ℕ → Bool
is_set [] = true
is_set (a ∷ kinds) = all (λ k. k == a) (a ∷ kinds)

unfoldable pub valid_tiles : GameMode → ResultMeld → Bool
valid_tiles mode m =
    let kinds = sort_kinds (map (λ t. t / 4) m.tiles) in
    if is_chi m.kind then not (is_three_player mode) && is_run kinds else is_set kinds

unfoldable pub valid_source : Seat → ResultMeld → Bool
valid_source winner m =
    if is_ankan m.kind
    then not m.opened && not (is_some m.from_who) && not (is_some m.called_tile)
    else m.opened
      && elim m.from_who [ none ↦ false | some seat ↦ not (seat == winner) ]
      && elim m.called_tile [ none ↦ false | some tile ↦ any (λ t. t == tile) m.tiles ]

-- The loop over the melds of a win.
unfoldable pub check_melds : GameMode → Seat → List ResultMeld → Outcome String (Unit {0})
check_melds mode winner [] = ok tt
check_melds mode winner (m ∷ ms) = do
  reject_if (not (length m.tiles == (if is_kan m.kind then 4 else 3))) "invalid meld size"
  reject_if (not (valid_tiles mode m) || not (valid_source winner m))
      "invalid meld structure or source"
  check_melds mode winner ms

abbrev pub melded_tiles : List ResultMeld → List Tile
melded_tiles [] = []
melded_tiles (m ∷ ms) = m.tiles ++ melded_tiles ms

abbrev pub called_tiles : List ResultMeld → List Tile
called_tiles [] = []
called_tiles (m ∷ ms) =
    let rest = called_tiles ms in elim m.called_tile [ none ↦ rest | some tile ↦ tile ∷ rest ]

-- The tiles of the completed hand.
abbrev pub hand_tiles : WinResult → List Tile
hand_tiles w = w.concealed ++ melded_tiles w.melds

-- All tiles that a win names.
unfoldable pub named_tiles : WinResult → List Tile
named_tiles w = hand_tiles w ++ (called_tiles w.melds ++ (w.winning_tile ∷ []))

unfoldable pub is_foreign_tile : GameMode → Tile → Bool
is_foreign_tile mode t = not (is_some (from_id t)) || not (is_valid_for t mode)

-- `insert` of each into a set succeeds.
unfoldable pub all_new : List Tile → List Tile → Bool
all_new seen [] = true
all_new seen (t ∷ ts) = not (any (λ s. s == t) seen) && all_new (t ∷ seen) ts
