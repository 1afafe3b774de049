-- ===== src/Services/Keys.antt =====
-- The idempotency keys of src/quant_execution/domain/services.py: their text, and the set of keys
-- in use with the re-entry counters (`ExecutionService._seen` and `_attempts`).
pub mod Digits
pub mod Attempts
pub mod Dates
pub mod Apart
pub mod Ledger
use quant_execution.Base.{
  ℕ, suc, ◌+◌, ◌-◌, ◌*◌, ◌/◌, ◌%◌, Text, codes, Bool, true, false, not, ◌&&◌, Option, none, some,
  List, [], ◌∷◌, ◌++◌, if◌then◌else◌, ltb, leb, nat_eq, text_eq, contains_text, keep_if, text_keys,
}
use quant_execution.Base.Dict.{Dict, lookup, insert}
use quant_execution.Domain.Enums.{ExecutionMode, mode_value}
use quant_execution.Domain.Records.{Tick, WatchlistEntry}

-- `str(n)` in decimal. A number has at most as many digits as itself and one.
unfoldable pub digits_of : ℕ → ℕ → Text
digits_of ℕ.zero n = []
digits_of (suc f) n =
    let front = digits_of f (n / 10) in
    if ltb n 10 then (48 + n) ∷ [] else front ++ (48 + n % 10) ∷ []

unfoldable pub decimal : ℕ → Text
unfolding digits_of
decimal n = digits_of (suc n) n

abbrev pub is_digit : ℕ → Bool
is_digit c = leb 48 c && leb c 57

unfoldable pub all_digits : Text → Bool
all_digits [] = true
all_digits (c ∷ s) = is_digit c && all_digits s

-- `str.isdigit` on ASCII: false on the empty text.
unfoldable pub isdigit : Text → Bool
unfolding all_digits
isdigit [] = false
isdigit (c ∷ s) = all_digits (c ∷ s)

unfoldable pub read_digits : ℕ → Text → ℕ
read_digits n [] = n
read_digits n (c ∷ s) = read_digits (n * 10 + (c - 48)) s

-- `int(suffix)` of a text of digits.
unfoldable pub read_number : Text → ℕ
unfolding read_digits
read_number = read_digits 0

abbrev starts_suffix : ℕ → Text → Option (Text × Text)
starts_suffix c [] = none
starts_suffix c (d ∷ t) = if nat_eq c b':' && nat_eq d b'r' then some ([], t) else none

abbrev with_front : ℕ → Text → Option (Text × Text) → Option (Text × Text)
with_front c s none = starts_suffix c s
with_front c s (some (b, t)) = some (c ∷ b, t)

-- `key.rpartition(":r")`: the parts around the last ":r", or `none` where there is none.
unfoldable pub rpartition_r : Text → Option (Text × Text)
rpartition_r [] = none
rpartition_r (c ∷ s) = with_front c s (rpartition_r s)

-- `compose_key`
unfoldable pub compose_key : Text → ℕ → Text
compose_key base attempt = if nat_eq attempt 0 then base else base ++ b':' ∷ b'r' ∷ decimal attempt

abbrev split_parts : Text → Option (Text × Text) → Text × ℕ
split_parts key none = (key, 0)
split_parts key (some (base, suffix)) =
    if isdigit suffix then (base, read_number suffix) else (key, 0)

-- `split_attempt`
unfoldable pub split_attempt : Text → Text × ℕ
split_attempt key = split_parts key (rpartition_r key)

abbrev pub two_digits : ℕ → Text
two_digits n = (48 + n / 10 % 10) ∷ (48 + n % 10) ∷ []

abbrev four_digits : ℕ → Text
four_digits n = two_digits (n / 100) ++ two_digits n

-- Year, month and day of a day counted from 1970-01-01: the proleptic Gregorian calendar of
-- `datetime.date`, by eras of 400 years that begin on the first of March.
unfoldable pub civil : ℕ → ℕ × ℕ × ℕ
civil days =
    let z = days + 719468 in
    let era = z / 146097 in
    let doe = z % 146097 in
    let yoe = (doe - doe / 1460 + doe / 36524 - doe / 146096) / 365 in
    let doy = doe - (365 * yoe + yoe / 4 - yoe / 100) in
    let mp = (5 * doy + 2) / 153 in
    let month = if ltb mp 10 then mp + 3 else mp - 9 in
    let leap : ℕ = if leb month 2 then 1 else 0 in
    (yoe + era * 400 + leap, month, doy - (153 * mp + 2) / 5 + 1)

-- `date.isoformat`
unfoldable pub isoformat : ℕ → Text
isoformat days =
    (four_digits (civil days).0 ++ b'-' ∷ two_digits (civil days).1)
    ++ b'-' ∷ two_digits (civil days).2

abbrev pub day_micros : ℕ
day_micros = 86400000000

abbrev or_empty : Option Text → Text
or_empty none = []
or_empty (some s) = s

abbrev or_now : Option ℕ → ℕ → ℕ
or_now none now = now
or_now (some ts) now = ts

-- `build_idempotency_key`: instants are microseconds of UTC, so the signal date is a UTC date.
unfoldable pub build_idempotency_key : ExecutionMode → WatchlistEntry → Tick → ℕ → Text
build_idempotency_key mode entry tick now =
    (mode_value mode ++ b':' ∷ entry.symbol ++ b':' ∷ or_empty entry.trigger_reason ++ b':' ∷ [])
    ++ isoformat (or_now tick.ts now / day_micros)

pub record KeyState : Type 0 where
  pub seen : List Text
  pub attempts : Dict Text ℕ

-- `self._attempts.get(base, 0)`
unfoldable pub attempt_of : Text → KeyState → ℕ
attempt_of base ks = elim (lookup base ks.attempts) [ none ↦ 0 | some n ↦ n ]

-- `set.add` and `set.discard`
unfoldable pub add_key : Text → List Text → List Text
add_key k ks = if contains_text ks k then ks else k ∷ ks

unfoldable pub discard_key : Text → List Text → List Text
discard_key k = keep_if (λ j. not (text_eq j k))

-- The first block of `execute` under `_seen_lock`: the key of the attempt, or `none` on dedup.
unfoldable pub claim_key : Text → KeyState → Option Text × KeyState
claim_key base ks =
    let key = compose_key base (attempt_of base ks) in
    if contains_text ks.seen key
    then (none, ks)
    else (some key, record ks { seen = add_key key ks.seen })

-- `ExecutionService.seed`
unfoldable pub seed : List Text → KeyState → KeyState
seed [] ks = ks
seed (key ∷ keys) ks =
    let (base, attempt) = split_attempt key in
    seed keys (record { seen = add_key key ks.seen; attempts = insert base attempt ks.attempts })

-- `ExecutionService.forget`
unfoldable pub forget : Text → KeyState → KeyState
forget key ks =
    let (base, attempt) = split_attempt key in
    record { seen = discard_key key ks.seen; attempts = insert base (attempt + 1) ks.attempts }
