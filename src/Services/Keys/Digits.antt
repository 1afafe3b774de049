-- ===== src/Services/Keys/Digits.antt =====
-- Lemmas about decimal numbers as text.
use quant_execution.Base.{
  ℕ, suc, ◌+◌, ◌-◌, ◌*◌, ◌/◌, ◌%◌, ◌<◌, Text, ◌≡◌, refl, ◌∙◌, true, false, ◌&&◌, [], ◌∷◌, ◌++◌,
  arith, inl, inr, ltb, Bool-cases,
}
use quant_execution.Services.Keys.{
  digits_of, decimal, all_digits, isdigit, read_digits, read_number,
}

read_digits-append : (n : ℕ) (s t : Text) → read_digits n (s ++ t) ≡ read_digits (read_digits n s) t
unfolding read_digits
read_digits-append n [] t = refl
read_digits-append n (c ∷ s) t = read_digits-append (n * 10 + (c - 48)) s t

all_digits-append : (s t : Text) → all_digits (s ++ t) ≡ all_digits s && all_digits t
unfolding all_digits
all_digits-append [] t = refl
all_digits-append (c ∷ s) t = ground (arith, all_digits-append s t)

tenth_lt : (f n : ℕ) → ltb n 10 ≡ false → n < suc f → n / 10 < f
tenth_lt f n more h = ground arith

last_digit : (n front : ℕ) → front ≡ n / 10 → read_digits front ((48 + n % 10) ∷ []) ≡ n
unfolding read_digits
last_digit n front e = omega arith

read_digits-digits_of : (f n : ℕ) → n < f → read_digits 0 (digits_of f n) ≡ n
unfolding digits_of
read_digits-digits_of ℕ.zero n h = elim h [ ]
read_digits-digits_of (suc f) n h = elim (Bool-cases (ltb n 10)) [
  | inl one ↦ rw one (unfold read_digits in omega arith)
  | inr more ↦ rw more (
      read_digits-append 0 (digits_of f (n / 10)) ((48 + n % 10) ∷ [])
      ∙ last_digit n _ (read_digits-digits_of f (n / 10) (tenth_lt f n more h)))
]

all_digits-digits_of : (f n : ℕ) → all_digits (digits_of f n) ≡ true
unfolding digits_of all_digits
all_digits-digits_of ℕ.zero n = refl
all_digits-digits_of (suc f) n = elim (Bool-cases (ltb n 10)) [
  | inl one ↦ rw one (ground arith)
  | inr more ↦ rw more (
      all_digits-append (digits_of f (n / 10)) ((48 + n % 10) ∷ [])
      ∙ ground (arith, all_digits-digits_of f (n / 10)))
]

isdigit-append_digit : (s : Text) (c : ℕ) → isdigit (s ++ c ∷ []) ≡ all_digits (s ++ c ∷ [])
unfolding isdigit
isdigit-append_digit [] c = refl
isdigit-append_digit (d ∷ s) c = refl

pub isdigit-decimal : (n : ℕ) → isdigit (decimal n) ≡ true
unfolding decimal
isdigit-decimal n = elim (Bool-cases (ltb n 10)) [
  | inl one ↦ rw (one, digits_of) (unfold isdigit in ground arith)
  | inr more ↦
      rw (more, digits_of)
        (isdigit-append_digit (digits_of n (n / 10)) (48 + n % 10)
          ∙ all_digits-append (digits_of n (n / 10)) ((48 + n % 10) ∷ [])
          ∙ (unfold all_digits in ground (arith, all_digits-digits_of n (n / 10))))
]

-- What `str` writes of a number, `int` reads back.
pub read_number-decimal : (n : ℕ) → read_number (decimal n) ≡ n
unfolding read_number decimal
read_number-decimal n = read_digits-digits_of (suc n) n (omega arith)

pub all_digits-decimal : (n : ℕ) → all_digits (decimal n) ≡ true
unfolding decimal
all_digits-decimal n = all_digits-digits_of (suc n) n
