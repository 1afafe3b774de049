-- ===== src/Services/Keys/Attempts.antt =====
-- Lemmas about `compose_key` and `split_attempt`.
use quant_execution.Base.{
  ℕ, zero, suc, Text, ◌≡◌, refl, ◌∙◌, ap, true, false, none, some, [], ◌∷◌, ◌++◌, arith, nat_eq,
}
use quant_execution.Services.Keys.{
  decimal, all_digits, starts_suffix, rpartition_r, compose_key, split_parts, split_attempt,
}
use quant_execution.Services.Keys.Digits.{isdigit-decimal, read_number-decimal, all_digits-decimal}

starts_suffix-ne_colon : (c : ℕ) (s : Text) → nat_eq c b':' ≡ false → starts_suffix c s ≡ none
starts_suffix-ne_colon c [] h = refl
starts_suffix-ne_colon c (d ∷ t) h = ground arith

-- A text of digits has no ":r".
rpartition-digits : (s : Text) → all_digits s ≡ true → rpartition_r s ≡ none
unfolding rpartition_r all_digits
rpartition-digits [] h = refl
rpartition-digits (c ∷ s) h = ground (arith, rpartition-digits s, starts_suffix-ne_colon c s)

rpartition-suffix :
    (base s : Text) → all_digits s ≡ true → rpartition_r (base ++ b':' ∷ b'r' ∷ s) ≡ some (base, s)
unfolding rpartition_r
rpartition-suffix [] s h =
    rw (rpartition-digits s h) (ground (arith, starts_suffix-ne_colon b'r' s))
rpartition-suffix (c ∷ base) s h = rw (rpartition-suffix base s h)

-- A key that carries no attempt: what follows its last ":r", if there is one, is no number.
abbrev pub IsBase : Text → Type 0
IsBase base = split_attempt base ≡ (base, 0)

pub compose_key-suc :
    (base : Text) (n : ℕ) → compose_key base (suc n) ≡ base ++ b':' ∷ b'r' ∷ decimal (suc n)
unfolding compose_key
compose_key-suc base n = ground arith

-- A key of a later attempt splits into its base and its attempt, whatever the base.
split-suffixed : (base : Text) (n : ℕ) → split_attempt (compose_key base (suc n)) ≡ (base, suc n)
unfolding split_attempt
split-suffixed base n =
    ap split_attempt (compose_key-suc base n)
    ∙ ap (split_parts (base ++ b':' ∷ b'r' ∷ decimal (suc n)))
        (rpartition-suffix base (decimal (suc n)) (all_digits-decimal (suc n)))
    ∙ rw (isdigit-decimal (suc n), read_number-decimal (suc n))

-- `split_attempt` undoes `compose_key` on every base that carries no attempt itself.
pub split-compose :
    (base : Text) (attempt : ℕ)
    → IsBase base
    → split_attempt (compose_key base attempt) ≡ (base, attempt)
split-compose base zero plain = unfold compose_key in plain
split-compose base (suc n) plain = split-suffixed base n
