-- ===== src/Decision/Clock.antt =====
-- crates/double_riichi_core/src/decision.rs: time controls and their durations.
-- An instant is a number of nanoseconds since some origin, and a duration a number of nanoseconds.
-- The panic of an instant's overflow is left out.
use driichi.Prelude.{
  ℕ, ◌*◌, ◌^◌, ◌&&◌, Option, none, some, String, leb, if◌then◌else◌, Outcome, ok, err, ◌>>◌,
}

abbrev pub Instant : Type 0
Instant = ℕ

abbrev pub Duration : Type 0
Duration = ℕ

abbrev pub from_secs : ℕ → Duration
from_secs s = s * 10 ^ 9

pub data TimeControl : Type 0 where
  riichi_dev casual unlimited : TimeControl

unfoldable pub turn_duration : TimeControl → Duration
turn_duration riichi_dev = from_secs 30
turn_duration casual = from_secs 30
turn_duration unlimited = from_secs 0

unfoldable pub response_duration : TimeControl → Duration
response_duration riichi_dev = from_secs 10
response_duration casual = from_secs 10
response_duration unlimited = from_secs 0

unfoldable pub watchdog_duration : TimeControl → Option Duration
watchdog_duration unlimited = some (from_secs (5 * 60))
watchdog_duration _ = none

pub record TimingConfig : Type 0 where
  pub turn : Duration
  pub response : Duration
  pub watchdog : Duration

pub data TimingError : Type 0 where
  out_of_range : (name : String) (min max value : ℕ) → TimingError

unfoldable pub validate_duration : String → ℕ → ℕ → ℕ → Outcome TimingError (Unit {0})
validate_duration name value low high =
    if leb low value && leb value high then ok tt else err (out_of_range name low high value)

unfoldable pub new_timing : ℕ → ℕ → ℕ → Outcome TimingError TimingConfig
unfolding validate_duration
new_timing turn_seconds response_seconds watchdog_seconds = do
  validate_duration "turn" turn_seconds 1 3600
  validate_duration "response" response_seconds 1 3600
  validate_duration "watchdog" watchdog_seconds 10 3600
  ok (record {
    turn = from_secs turn_seconds;
    response = from_secs response_seconds;
    watchdog = from_secs watchdog_seconds;
  })

abbrev pub casual_timing : TimingConfig
casual_timing = record {
  turn = from_secs 30;
  response = from_secs 10;
  watchdog = from_secs (5 * 60);
}
