-- ===== src/Services/Keys/Dates.antt =====
-- Lemmas about the text of `build_idempotency_key`, which ends in a date.
use quant_execution.Base.{
  ℕ, ◌/◌, Text, ◌≡◌, refl, Bool-cases, false, ◌&&◌, inl, inr, Option, none, some, [], ◌∷◌, ◌++◌,
  arith, nat_eq,
}
use mathlib.Core.List.{append_assoc}
use quant_execution.Domain.Enums.{ExecutionMode}
use quant_execution.Domain.Records.{Tick, WatchlistEntry}
use quant_execution.Services.Keys.{
  all_digits, isdigit, starts_suffix, rpartition_r, split_parts, with_front, or_now, day_micros,
  split_attempt, two_digits, isoformat, civil, build_idempotency_key,
}
use quant_execution.Services.Keys.Attempts.{IsBase}

-- The day of the month, as the date ends.
abbrev dash_day : ℕ → Text
dash_day d = b'-' ∷ two_digits d

rpartition-dash_day : (d : ℕ) → rpartition_r (dash_day d) ≡ none
unfolding rpartition_r
rpartition-dash_day d = ground arith

all_digits-dash : (u : Text) (d : ℕ) → all_digits (u ++ dash_day d) ≡ false
unfolding all_digits
all_digits-dash [] d = refl
all_digits-dash (c ∷ u) d = ground (arith, all_digits-dash u d)

isdigit-dash : (u : Text) (d : ℕ) → isdigit (u ++ dash_day d) ≡ false
unfolding isdigit
isdigit-dash [] d = all_digits-dash [] d
isdigit-dash (c ∷ u) d = all_digits-dash (c ∷ u) d

abbrev Ends : ℕ → Option (Text × Text) → Type 0
Ends d none = Unit
Ends d (some (b, suffix)) = (u : Text) × (suffix ≡ u ++ dash_day d)

starts_suffix-Ends : (c : ℕ) (s : Text) (d : ℕ) → Ends d (starts_suffix c (s ++ dash_day d))
starts_suffix-Ends c [] d = ground arith
starts_suffix-Ends c (h ∷ t) d = elim (Bool-cases (nat_eq c b':' && nat_eq h b'r')) [
  | inl hit ↦ rw hit (t, refl)
  | inr miss ↦ rw miss tt
]

with_front-Ends :
    (c : ℕ) (s : Text) (d : ℕ) (o : Option (Text × Text))
    → Ends d o
    → Ends d (with_front c (s ++ dash_day d) o)
with_front-Ends c s d none h = starts_suffix-Ends c s d
with_front-Ends c s d (some (b, t)) h = h

-- What follows the last ":r" of a text that ends in a day ends in that day too.
rpartition-Ends : (s : Text) (d : ℕ) → Ends d (rpartition_r (s ++ dash_day d))
unfolding rpartition_r
rpartition-Ends [] d = rw (rpartition-dash_day d) tt
rpartition-Ends (c ∷ s) d = with_front-Ends c s d _ (rpartition-Ends s d)

split_parts-Ends :
    (key : Text) (d : ℕ) (o : Option (Text × Text)) → Ends d o → split_parts key o ≡ (key, 0)
split_parts-Ends key d none h = refl
split_parts-Ends key d (some (b, t)) (u, e) = rw (e, isdigit-dash u d)

IsBase-dash_day : (s : Text) (d : ℕ) → IsBase (s ++ dash_day d)
unfolding split_attempt
IsBase-dash_day s d =
    split_parts-Ends (s ++ dash_day d) d (rpartition_r (s ++ dash_day d)) (rpartition-Ends s d)

-- The key that `execute` builds carries no attempt, whatever its symbol and trigger reason.
pub build_idempotency_key-IsBase :
    (mode : ExecutionMode) (entry : WatchlistEntry) (tick : Tick) (now : ℕ)
    → IsBase (build_idempotency_key mode entry tick now)
unfolding build_idempotency_key isoformat
build_idempotency_key-IsBase mode entry tick now =
    let day = civil (or_now tick.ts now / day_micros) in
    rw (← append_assoc) (IsBase-dash_day _ day.2)
