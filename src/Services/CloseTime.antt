-- ===== src/Services/CloseTime.antt =====
-- `parse_close_time` and `shift_earlier` of src/quant_execution/domain/services.py.
use quant_execution.Base.{
  ℕ, zero, suc, ◌+◌, ◌-◌, ◌*◌, ◌/◌, ◌%◌, ◌≤◌, ◌<◌, Text, ◌≡◌, refl, ap, sym, ◌∙◌, Option-cases,
  Bool, true, false, ◌&&◌, ◌||◌, Option, none, some, [], ◌∷◌, ◌++◌, arith, inl, inr, if◌then◌else◌,
  ltb, leb, nat_eq,
}
use quant_execution.Base.Int.{ℤ, pos, negsuc}
use quant_execution.Domain.Clock.{ClockTime}
use quant_execution.Services.Keys.{is_digit, two_digits}

-- An empty text disables the schedule; a text that is no time is a `ConfigurationError`.
pub data CloseTime : Type 0 where
  disabled : CloseTime
  at : ClockTime → CloseTime
  configuration_error : CloseTime

abbrev is_space : ℕ → Bool
is_space c = nat_eq c 32 || (leb 9 c && leb c 13)

unfoldable pub skip_spaces : Text → Text
skip_spaces [] = []
skip_spaces (c ∷ s) = let rest = skip_spaces s in if is_space c then rest else c ∷ s

-- The digits of an `int` literal and the spaces after them; one underscore may stand between two
-- digits. `seen` tells that the character before was a digit.
unfoldable pub int_digits : Bool → ℕ → Text → Option ℕ
unfolding skip_spaces
int_digits seen n [] = if seen then some n else none
int_digits seen n (c ∷ s) =
    let digit = int_digits true (n * 10 + (c - 48)) s in
    let underscore = int_digits false n s in
    if is_digit c
    then digit
    else if seen && nat_eq c b'_'
    then underscore
    else if seen && is_space c
    then elim (skip_spaces s) [ [] ↦ some n | ◌∷◌ d t ↦ none ]
    else none

abbrev negated : Option ℕ → Option ℤ
negated none = none
negated (some zero) = some (pos 0)
negated (some (suc n)) = some (negsuc n)

abbrev positive : Option ℕ → Option ℤ
positive none = none
positive (some n) = some (pos n)

abbrev signed : Text → Option ℤ
signed [] = none
signed (c ∷ s) =
    if nat_eq c b'-'
    then negated (int_digits false 0 s)
    else if nat_eq c b'+'
    then positive (int_digits false 0 s)
    else positive (int_digits false 0 (c ∷ s))

-- `int(s)` on ASCII text: `none` where it raises `ValueError`.
unfoldable pub parse_int : Text → Option ℤ
parse_int s = signed (skip_spaces s)

-- `raw.split(":", 1)` into two parts; `none` where there is one part only.
unfoldable pub split_colon : Text → Option (Text × Text)
split_colon [] = none
split_colon (c ∷ s) =
    if nat_eq c b':'
    then some ([], s)
    else elim (split_colon s) [ none ↦ none | some (a, b) ↦ some (c ∷ a, b) ]

-- `clock_time(hour=…, minute=…)` raises `ValueError` out of range.
abbrev clock_time : Option ℤ → Option ℤ → CloseTime
clock_time (some (pos h)) (some (pos m)) =
    if ltb h 24 && ltb m 60
    then at (record { hour = h; minute = m; second = 0; microsecond = 0 })
    else configuration_error
clock_time _ _ = configuration_error

abbrev from_parts : Option (Text × Text) → CloseTime
from_parts none = configuration_error
from_parts (some (h, m)) = clock_time (parse_int h) (parse_int m)

unfoldable pub parse_close_time : Text → CloseTime
parse_close_time [] = disabled
parse_close_time (c ∷ s) = from_parts (split_colon (c ∷ s))

-- `(total - minutes) % (24 * 60)`: Python's remainder is never negative.
abbrev minutes_before : ℕ → ℤ → ℕ
minutes_before total (pos m) = (total + (1440 - m % 1440)) % 1440
minutes_before total (negsuc n) = (total + suc n) % 1440

unfoldable pub shift_earlier : Option ClockTime → ℤ → Option ClockTime
shift_earlier none minutes = none
shift_earlier (some t) minutes =
    let total = minutes_before (t.hour * 60 + t.minute) minutes in
    some (record { hour = total / 60; minute = total % 60; second = 0; microsecond = 0 })

abbrev pub IsTime : ClockTime → Type 0
IsTime t = (t.hour < 24) × (t.minute < 60) × (t.second < 60) × (t.microsecond < 1000000)

abbrev pub at_minute : ℕ → ℕ → ClockTime
at_minute h m = record { hour = h; minute = m; second = 0; microsecond = 0 }

-- A time of the day moved earlier by a lead of at most its minutes since midnight is the time of
-- the day that many minutes before.
pub shift_earlier_lem :
    (h m lead : ℕ)
    → h < 24
    → m < 60
    → lead ≤ h * 60 + m
    → (g : ℕ) × (n : ℕ) × (shift_earlier (some (at_minute h m)) (pos lead) ≡ some (at_minute g n))
      × IsTime (at_minute g n)
      × (g * 60 + n + lead ≡ h * 60 + m)
unfolding shift_earlier
shift_earlier_lem h m lead hh mm fits =
    let total = (h * 60 + m + (1440 - lead % 1440)) % 1440 in
    (total / 60, total % 60, refl, omega arith, omega arith)

-- A lead past midnight wraps to the evening.
pub shift_earlier_wraps :
    (h m lead : ℕ)
    → m < 60
    → h * 60 + m < lead
    → lead ≤ 1440
    → (g : ℕ) × (n : ℕ) × (shift_earlier (some (at_minute h m)) (pos lead) ≡ some (at_minute g n))
      × IsTime (at_minute g n)
      × (g * 60 + n + lead ≡ h * 60 + m + 1440)
unfolding shift_earlier
shift_earlier_wraps h m lead mm late fits =
    let total = (h * 60 + m + (1440 - lead % 1440)) % 1440 in
    (total / 60, total % 60, refl, omega arith, omega arith)

int_digits-digit :
    (seen : Bool) (n d : ℕ) (s : Text)
    → d < 10
    → int_digits seen n ((48 + d) ∷ s) ≡ int_digits true (n * 10 + d) s
unfolding int_digits
int_digits-digit seen n d s h = rw digit_is (ap (λ k. int_digits true (n * 10 + k) s) (omega arith))
  where
    digit_is : is_digit (48 + d) ≡ true
    digit_is = ground arith

signed-digit :
    (d : ℕ) (s : Text)
    → d < 10
    → signed ((48 + d) ∷ s) ≡ positive (int_digits false 0 ((48 + d) ∷ s))
signed-digit d s h = ground arith

skip_spaces-digit : (d : ℕ) (s : Text) → d < 10 → skip_spaces ((48 + d) ∷ s) ≡ (48 + d) ∷ s
unfolding skip_spaces
skip_spaces-digit d s h = rw not_space
  where
    not_space : is_space (48 + d) ≡ false
    not_space = ground arith

int_digits-end : (n v : ℕ) → n ≡ v → int_digits true n [] ≡ some v
unfolding int_digits
int_digits-end n v h = ap some h

int_two : (n : ℕ) → n < 100 → parse_int (two_digits n) ≡ some (pos n)
unfolding parse_int
int_two n h =
    ap signed (skip_spaces-digit (n / 10 % 10) _ (omega arith))
    ∙ signed-digit (n / 10 % 10) _ (omega arith)
    ∙ ap positive (
        int_digits-digit false 0 (n / 10 % 10) _ (omega arith)
        ∙ int_digits-digit true (0 * 10 + n / 10 % 10) (n % 10) [] (omega arith)
        ∙ int_digits-end ((0 * 10 + n / 10 % 10) * 10 + n % 10) n (omega arith))

split_colon-two :
    (n : ℕ) (s : Text) → split_colon (two_digits n ++ b':' ∷ s) ≡ some (two_digits n, s)
unfolding split_colon
split_colon-two n s = ground arith

-- A valid time written as `HH:MM` is read back.
pub parse_close_time_printed :
    (h m : ℕ)
    → h < 24
    → m < 60
    → parse_close_time (two_digits h ++ b':' ∷ two_digits m) ≡ at (at_minute h m)
unfolding parse_close_time
parse_close_time_printed h m hh mm =
    ap from_parts (split_colon-two h (two_digits m))
    ∙ rw (int_two h (omega arith), int_two m (omega arith)) (ground arith)

clock_time-IsTime :
    (h m : Option ℤ) (t : ClockTime) → clock_time h m ≡ at t → IsTime t × (t.second ≡ 0)
clock_time-IsTime (some (pos h)) (some (pos m)) t e = ground arith
clock_time-IsTime _ _ t e = cc

-- Whatever text is parsed, a time that comes out is a time of the day, on a full minute.
pub parse_close_time-IsTime :
    (raw : Text) (t : ClockTime) → parse_close_time raw ≡ at t → IsTime t × (t.second ≡ 0)
unfolding parse_close_time
parse_close_time-IsTime [] t e = cc
parse_close_time-IsTime (c ∷ s) t e = elim (Option-cases (split_colon (c ∷ s))) [
  | inl none_found ↦ cc (ap from_parts none_found)
  | inr ((h, m), found) ↦
      clock_time-IsTime (parse_int h) (parse_int m) t (sym (ap from_parts found) ∙ e)
]
