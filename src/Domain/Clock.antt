-- ===== src/Domain/Clock.antt =====
-- Wall-clock values in the market time zone: `datetime.time`, and a moment as its date (a day
-- number) and time. `<=` of two times is their order in microseconds since midnight.
use quant_execution.Base.{ℕ, ◌+◌, ◌*◌, Bool, leb}

pub record ClockTime : Type 0 where
  pub hour : ℕ
  pub minute : ℕ
  pub second : ℕ
  pub microsecond : ℕ

abbrev pub micros_of_day : ClockTime → ℕ
micros_of_day t = ((t.hour * 60 + t.minute) * 60 + t.second) * 1000000 + t.microsecond

pub record Moment : Type 0 where
  pub day : ℕ
  pub time : ClockTime

-- `moment.time() >= t`
abbrev pub has_reached : Moment → ClockTime → Bool
has_reached m t = leb (micros_of_day t) (micros_of_day m.time)
