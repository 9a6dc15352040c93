-- ===== src/Domain/ModeName.antt =====
-- The names of the match modes, printed and parsed.
use driichi.Domain.Mode.{GameMode, four_player_red_east, as_str, from_str}
use driichi.Prelude.{◌≡◌, refl, ◌↔◌, some, String, eq_iff, arith}

parsed_name : (value : String) (mode : GameMode) → from_str value ≡ some mode → value ≡ as_str mode
unfolding from_str as_str
parsed_name value four_player_red_east h = ground (
  arith,
  eq_iff value "4p-red-east",
  eq_iff value "4p-red-half",
  eq_iff value "3p-red-east",
  eq_iff value "3p-red-half",
)
parsed_name value mode h = ground (
  arith,
  eq_iff value "4p-red-east",
  eq_iff value "4p-red-half",
  eq_iff value "3p-red-east",
  eq_iff value "3p-red-half",
)

printed_name : (mode : GameMode) → from_str (as_str mode) ≡ some mode
unfolding from_str as_str
printed_name four_player_red_east = refl
printed_name mode = refl

-- The parser accepts exactly the printed names, and reads each as the mode that it names.
pub from_str-as_str :
    (value : String) (mode : GameMode) → (from_str value ≡ some mode) ↔ (value ≡ as_str mode)
from_str-as_str value mode = (parsed_name value mode, λ h. rw h (printed_name mode))
