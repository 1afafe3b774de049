-- ===== src/Services/Sizing.antt =====
-- `compute_sizing` of src/quant_execution/domain/services.py. The settings are floats that Python
-- reads through `Decimal(str(...))`; here they are decimals already, in units of 10^-8.
-- The quotient is exact here; Python rounds it to 28 digits before it takes the whole part, which
-- differs only where the quotient lies that close below a whole number.
use quant_execution.Base.{
  ◌⊎◌, ℕ, suc, ◌+◌, ◌*◌, ◌/◌, ◌≤◌, ◌<◌, ◌≡◌, ◌↔◌, refl, Bool, true, false, Option, none, some,
  arith, inl, inr, if◌then◌else◌,
}
use quant_execution.Base.Int.{ℤ, pos, negsuc, pos_part, ◌*ℤ◌, ◌-ℤ◌, ◌≤ℤ◌}
use quant_execution.Domain.Decimal.{Decimal, unit, zero_decimal, at_most}

pub data Sized : Type 0 where
  -- quantity and notional
  sized : Decimal → Decimal → Sized
  configuration_error : Sized

-- `a / b` rounded toward zero (ROUND_DOWN), for `b > 0`.
unfoldable pub divide_down : ℤ → ℤ → ℤ
divide_down (pos a) b = pos (a / pos_part b)
divide_down (negsuc a) b = pos 0 -ℤ pos (suc a / pos_part b)

-- A whole number of shares as a quantity, and what it costs.
unfoldable pub shares_sized : ℤ → Decimal → Sized
shares_sized shares price = sized (shares *ℤ pos unit) (shares *ℤ price)

abbrev sized_by : Option Decimal → Option Decimal → Decimal → Sized
sized_by none none price = configuration_error
sized_by (some budget) (some q) price = configuration_error
sized_by (some budget) none price =
    if at_most price zero_decimal
    then configuration_error
    else shares_sized (divide_down budget price) price
sized_by none (some q) price =
    if at_most price zero_decimal
    then configuration_error
    else shares_sized (divide_down q (pos unit)) price

-- `compute_sizing`: arguments `trigger_price`, `notional_usd`, `quantity`.
unfoldable pub compute_sizing : Decimal → Option Decimal → Option Decimal → Sized
compute_sizing price notional_usd quantity = sized_by notional_usd quantity price

pos_not_at_most : (price : ℕ) → 0 < price → at_most (pos price) zero_decimal ≡ false
pos_not_at_most price h = ground arith

-- With a fixed quantity the order buys its whole part, and pays the trigger price for each share.
pub quantity_sizing :
    (q price : ℕ)
    → 0 < price
    → (n : ℕ) × (compute_sizing (pos price) none (some (pos q))
        ≡ sized (pos (n * unit)) (pos (n * price)))
      × (n * unit ≤ q)
      × (q < (n + 1) * unit)
unfolding compute_sizing shares_sized divide_down ◌*ℤ◌
quantity_sizing q price h =
    (q / unit, ground (arith, pos_not_at_most price h), omega arith, omega arith)

abbrev is_set : Option Decimal → Bool
is_set none = false
is_set (some d) = true

-- Sizing is refused exactly where both rules or neither are set, or the price is not positive.
pub sizing_refused_iff :
    (price : Decimal) (notional_usd quantity : Option Decimal)
    → (compute_sizing price notional_usd quantity ≡ configuration_error)
      ↔ ((is_set notional_usd ≡ is_set quantity) ⊎ (price ≤ℤ zero_decimal))
unfolding compute_sizing shares_sized
sizing_refused_iff price none none = (λ e. inl refl, λ h. refl)
sizing_refused_iff price (some b) (some q) = (λ e. inl refl, λ h. refl)
sizing_refused_iff price (some b) none = (λ e. inr (ground arith), λ h. refused h)
  where
    refused :
        (is_set (some b) ≡ is_set none) ⊎ (price ≤ℤ zero_decimal)
        → sized_by (some b) none price ≡ configuration_error
    refused (inl e) = cc
    refused (inr h) = ground arith
sizing_refused_iff price none (some q) = (λ e. inr (ground arith), λ h. refused h)
  where
    refused :
        (is_set none ≡ is_set (some q)) ⊎ (price ≤ℤ zero_decimal)
        → sized_by none (some q) price ≡ configuration_error
    refused (inl e) = cc
    refused (inr h) = ground arith
