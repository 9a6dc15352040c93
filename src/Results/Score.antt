-- ===== src/Results/Score.antt =====
-- crates/double_riichi_core/src/results.rs: the limit that a score reaches.
use driichi.Results.Types.{ScoreLimit, mangan, haneman, baiman, sanbaiman, counted_yakuman}
use driichi.Prelude.{
  ℕ, zero, suc, ◌+◌, ◌*◌, ◌/◌, ◌%◌, ◌^◌, ◌≤◌, ◌≡◌, Option, none, some, ltb, leb, ◌==◌,
  if◌then◌else◌, arith,
}

-- `div_ceil(10) * 10` on `u32`; the product wraps in a release build.
unfoldable pub rounded_fu : ℕ → ℕ
rounded_fu fu = if fu == 25 then 25 else ((fu + 9) / 10 * 10) % 2 ^ 32

-- The amount is below 32, so `checked_shl` never fails; the bits shifted out are lost.
unfoldable pub basic_points : ℕ → ℕ → ℕ
basic_points han fu = (rounded_fu fu * 2 ^ (han + 2)) % 2 ^ 32

unfoldable pub ordinary_limit : ℕ → ℕ → Option ScoreLimit
ordinary_limit han fu =
    if leb han 4
    then (if ltb 2000 (basic_points han fu) then some mangan else none)
    else if han == 5
    then some mangan
    else if leb han 7
    then some haneman
    else if leb han 10
    then some baiman
    else if leb han 12
    then some sanbaiman
    else some counted_yakuman

-- The rounded fu and the points without wrapping.
abbrev pub exact_points : ℕ → ℕ → ℕ
exact_points han fu = (if fu == 25 then 25 else (fu + 9) / 10 * 10) * 2 ^ (han + 2)

no_wrap : (han fu : ℕ) → han ≤ 4 → fu ≤ 2 ^ 25 → basic_points han fu ≡ exact_points han fu
unfolding basic_points rounded_fu
no_wrap zero fu low small = ground arith
no_wrap (suc zero) fu low small = ground arith
no_wrap (suc (suc zero)) fu low small = ground arith
no_wrap (suc (suc (suc zero))) fu low small = ground arith
no_wrap (suc (suc (suc (suc zero)))) fu low small = ground arith
no_wrap (suc (suc (suc (suc (suc n))))) fu low small = absurd (omega (arith, low))

-- Up to 4 han and 2^25 fu the arithmetic on 32 bits does not wrap: a hand reaches mangan exactly if
-- its rounded fu, doubled once for each han and twice more, are above 2000.
pub ordinary_limit-exact :
    (han fu : ℕ)
    → han ≤ 4
    → fu ≤ 2 ^ 25
    → ordinary_limit han fu ≡ (if ltb 2000 (exact_points han fu) then some mangan else none)
unfolding ordinary_limit
ordinary_limit-exact han fu low small = ground (arith, no_wrap han fu low small)
