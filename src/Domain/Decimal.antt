-- ===== src/Domain/Decimal.antt =====
-- Prices, quantities and sums of money: `decimal.Decimal` in the scale of the `Numeric(20, 8)`
-- columns of src/quant_execution/repository/models.py. A `Decimal` counts units of 10^-8.
-- Sums, differences and comparisons of such values are exact in Python as well. A price with more
-- than eight places, which a message may carry, and the rounding of the column are not modelled.
use quant_execution.Base.{ℕ, Bool, true, false, ◌≡◌, arith}
use quant_execution.Base.Int.{ℤ, pos, leb_ℤ, ltb_ℤ, ◌≤ℤ◌, ◌<ℤ◌}

abbrev pub Decimal : Type 0
Decimal = ℤ

-- One, in units of 10^-8.
abbrev pub unit : ℕ
unit = 100000000

abbrev pub zero_decimal : Decimal
zero_decimal = pos 0

-- `a <= b`
abbrev pub at_most : Decimal → Decimal → Bool
at_most a b = leb_ℤ a b

-- `a < b`
abbrev pub below : Decimal → Decimal → Bool
below a b = ltb_ℤ a b

pub at_most→le : (a b : Decimal) → at_most a b ≡ true → a ≤ℤ b
at_most→le a b h = ground arith

pub le→at_most : (a b : Decimal) → a ≤ℤ b → at_most a b ≡ true
le→at_most a b h = ground arith

pub below→lt : (a b : Decimal) → below a b ≡ true → a <ℤ b
below→lt a b h = ground arith

-- `a == 0`: a zero `Decimal` is falsy.
unfoldable pub is_zero : Decimal → Bool
is_zero (pos ℕ.zero) = true
is_zero _ = false
