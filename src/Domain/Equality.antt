-- ===== src/Domain/Equality.antt =====
-- crates/double_riichi_core/src/domain.rs: the derived equality of actions.
use driichi.Domain.Tile.{Tile}
use driichi.Domain.Action.{
  GameAction, discard, riichi_discard, chi, pon, daiminkan, ankan, kakan, nuki, tsumo, ron, pass,
  abortive_draw,
}
use driichi.Prelude.{Bool, true, false, not, ◌&&◌, List, [], ◌∷◌, ◌==◌}

abbrev pub same_flag : Bool → Bool → Bool
same_flag true b = b
same_flag false b = not b

unfoldable pub tiles_eq : List Tile → List Tile → Bool
tiles_eq [] [] = true
tiles_eq [] (y ∷ ys) = false
tiles_eq (x ∷ xs) [] = false
tiles_eq (x ∷ xs) (y ∷ ys) = let rest = tiles_eq xs ys in x == y && rest

unfoldable pub action_eq : GameAction → GameAction → Bool
action_eq (discard t f) (discard u g) = t == u && same_flag f g
action_eq (riichi_discard t) (riichi_discard u) = t == u
action_eq (chi a t ts) (chi b u us) = a == b && t == u && tiles_eq ts us
action_eq (pon a t ts) (pon b u us) = a == b && t == u && tiles_eq ts us
action_eq (daiminkan a t ts) (daiminkan b u us) = a == b && t == u && tiles_eq ts us
action_eq (ankan ts) (ankan us) = tiles_eq ts us
action_eq (kakan t ts) (kakan u us) = t == u && tiles_eq ts us
action_eq (nuki t) (nuki u) = t == u
action_eq tsumo tsumo = true
action_eq (ron a) (ron b) = a == b
action_eq pass pass = true
action_eq abortive_draw abortive_draw = true
action_eq _ _ = false
