-- ===== src/Domain/Event.antt =====
-- crates/double_riichi_core/src/domain.rs: the events of a match.
use driichi.Domain.Mode.{Seat, Wind}
use driichi.Domain.Tile.{Tile}
use driichi.Prelude.{ℕ, Bool, Option, List, String}
use driichi.Prelude.Int.{ℤ}

pub data GameEvent : Type 0 where
  start_game : (names : Option (List String)) (id : Option String) → GameEvent
  start_kyoku :
      (bakaze : Wind) (kyoku honba kyotaku : ℕ) (oya : Seat) (scores : List ℤ) (dora_marker : Tile)
      (tehais : List (List Tile))
      → GameEvent
  tsumo : (actor : Seat) (tile : Tile) → GameEvent
  dahai : (actor : Seat) (tile : Tile) (tsumogiri : Bool) → GameEvent
  pon chi daiminkan : (actor target : Seat) (called : Tile) (consumed : List Tile) → GameEvent
  kakan : (actor : Seat) (called : Tile) (consumed : List Tile) → GameEvent
  ankan : (actor : Seat) (consumed : List Tile) → GameEvent
  dora : (dora_marker : Tile) → GameEvent
  reach : (actor : Seat) → GameEvent
  reach_accepted : (actor : Seat) → GameEvent
  hora :
      (actor target : Seat) (tile : Option Tile) (ura_markers : Option (List Tile))
      (yaku : Option (List (String × ℕ))) (fu han : Option ℕ) (scores delta : Option (List ℤ))
      → GameEvent
  ryukyoku :
      (reason : Option String) (tehais : Option (List (List Tile))) (delta scores : Option (List ℤ))
      → GameEvent
  kita : (actor : Seat) → GameEvent
  end_kyoku end_game : GameEvent

unfoldable pub kind : GameEvent → String
kind (start_game _ _) = "start_game"
kind (start_kyoku _ _ _ _ _ _ _ _) = "start_kyoku"
kind (tsumo _ _) = "tsumo"
kind (dahai _ _ _) = "dahai"
kind (pon _ _ _ _) = "pon"
kind (chi _ _ _ _) = "chi"
kind (daiminkan _ _ _ _) = "kan"
kind (kakan _ _ _) = "kakan"
kind (ankan _ _) = "ankan"
kind (dora _) = "dora"
kind (reach _) = "reach"
kind (reach_accepted _) = "reach_accepted"
kind (hora _ _ _ _ _ _ _ _ _) = "hora"
kind (ryukyoku _ _ _ _) = "ryukyoku"
kind (kita _) = "kita"
kind end_kyoku = "end_kyoku"
kind end_game = "end_game"
