-- ===== src/Results/Scoring.antt =====
-- crates/double_riichi_core/src/results.rs: the check of a win's points and yaku. The rules crate is
-- the record `Rules`.
use driichi.Domain.Mode.{GameMode, Seat, seat_count}
use driichi.Results.Types.{
  YakuValue, ScoreLimit, mangan, haneman, baiman, sanbaiman, counted_yakuman, WinEvaluation,
  ordinary, yakuman, WinResult,
}
use driichi.Results.Score.{ordinary_limit}
use driichi.Prelude.{
  ℕ, ◌+◌, ◌*◌, ◌%◌, ◌^◌, min, Bool, true, false, not, ◌&&◌, ◌||◌, Option, none, some, List, [], ◌∷◌,
  String, str_eq, any, ltb, leb, ◌==◌, if◌then◌else◌, Outcome, ok, err, ok_or, reject_if, ◌>>=◌,
  ◌>>◌,
}

-- What the check uses of the crate riichienv-core: whether tile kinds complete a hand, the name of a
-- yaku's id, and the total of a score by han, fu, dealer, tsumo, honba and seats.
pub record Rules : Type 0 where
  pub is_agari : List ℕ → Bool
  pub yaku_name : ℕ → Option String
  pub calculate_score : ℕ → ℕ → Bool → Bool → ℕ → ℕ → ℕ

abbrev pub fits : ℕ → ℕ → Option ℕ
fits bits n = if ltb n (2 ^ bits) then some n else none

-- `u32::checked_mul` and `u32::checked_add`.
abbrev pub times : ℕ → ℕ → Option ℕ
times a b = fits 32 (a * b)

abbrev pub plus : ℕ → ℕ → Option ℕ
plus a b = fits 32 (a + b)

-- The derived equality.
unfoldable pub limit_eq : ScoreLimit → ScoreLimit → Bool
limit_eq mangan mangan = true
limit_eq haneman haneman = true
limit_eq baiman baiman = true
limit_eq sanbaiman sanbaiman = true
limit_eq counted_yakuman counted_yakuman = true
limit_eq _ _ = false

abbrev pub option_limit_eq : Option ScoreLimit → Option ScoreLimit → Bool
option_limit_eq none none = true
option_limit_eq (some a) (some b) = limit_eq a b
option_limit_eq _ _ = false

abbrev pub is_no_limit : Option ScoreLimit → Bool
is_no_limit none = true
is_no_limit (some _) = false

-- The guard of an ordinary evaluation.
unfoldable pub is_scored : ℕ → ℕ → Option ScoreLimit → Bool
is_scored han fu limit =
    ltb 0 han
    && (fu == 20 || fu == 25 || (leb 30 fu && leb fu 250 && fu % 10 == 0))
    && (is_no_limit limit || option_limit_eq limit (ordinary_limit han fu))

-- The han and fu that are scored.
unfoldable pub scored : WinEvaluation → Outcome String (ℕ × ℕ)
scored (ordinary han fu limit) =
    if is_scored han fu limit then ok (min han 13, fu) else err "invalid scoring evaluation"
scored (yakuman multiplier) =
    if ltb 0 multiplier
    then (do han ← ok_or (times multiplier 13) "scoring multiplier overflow"; ok (han, 0))
    else err "invalid scoring evaluation"

unfoldable pub win_basic_points : Rules → WinResult → GameMode → Bool → Outcome String ℕ
win_basic_points rules w mode dealer = do
  (han, fu) ← scored w.evaluation
  han ← ok_or (fits 8 han) "scoring han overflow"
  fu ← ok_or (fits 8 fu) "scoring fu overflow"
  ok (rules.calculate_score han fu dealer w.tsumo 0 (seat_count mode))

unfoldable pub validate_payment : Rules → WinResult → GameMode → Seat → Outcome String (Unit {0})
validate_payment rules w mode dealer = do
  points ← win_basic_points rules w mode (w.seat == dealer)
  reject_if (not (points == w.win_points)) "Win Points contradict canonical dealer and evaluation"
  ok tt

-- The value of one yaku in the kind of its hand.
unfoldable pub yaku_value : WinEvaluation → YakuValue → Option ℕ
yaku_value (ordinary _ _ _) y = elim y.han [
  | none ↦ none
  | some value ↦ elim y.yakuman_multiplier [
    | none ↦ if ltb 0 value then some value else none
    | some _ ↦ none
  ]
]
yaku_value (yakuman _) y = elim y.han [
  | some _ ↦ none
  | none ↦ elim y.yakuman_multiplier [
    | none ↦ none
    | some value ↦ if ltb 0 value then times value 13 else none
  ]
]

-- `try_fold`.
unfoldable pub yaku_total : WinEvaluation → ℕ → List YakuValue → Option ℕ
yaku_total evaluation total [] = some total
yaku_total evaluation total (y ∷ ys) = elim (yaku_value evaluation y) [
  | none ↦ none
  | some value ↦ elim (plus total value) [ none ↦ none | some sum ↦ yaku_total evaluation sum ys ]
]

unfoldable pub evaluation_total : WinEvaluation → Outcome String ℕ
evaluation_total (ordinary han fu _) = ok (if ltb 0 fu then han else 0)
evaluation_total (yakuman multiplier) =
    if ltb 0 multiplier then ok_or (times multiplier 13) "yakuman multiplier overflow" else ok 0

unfoldable pub is_known : Rules → YakuValue → Bool
is_known rules y = elim (rules.yaku_name y.id) [ none ↦ false | some name ↦ str_eq name y.name ]

unfoldable pub check_yaku : Rules → WinResult → Outcome String (Unit {0})
check_yaku rules w = do
  total ← ok_or (yaku_total w.evaluation 0 w.yaku) "invalid or overflowing yaku value"
  reject_if (any (λ y. not (is_known rules y)) w.yaku) "invalid adjudicated yaku values"
  expected ← evaluation_total w.evaluation
  reject_if (not (total == expected) || total == 0) "invalid adjudicated yaku values"
  ok tt

-- The points are those of another seat than the dealer's, or of the dealer's.
unfoldable pub check_points : Rules → GameMode → WinResult → Outcome String (Unit {0})
check_points rules mode w = do
  child ← win_basic_points rules w mode false
  if child == w.win_points then ok tt else (do
    dealer ← win_basic_points rules w mode true
    reject_if (not (dealer == w.win_points)) "Win Points contradict evaluation")
