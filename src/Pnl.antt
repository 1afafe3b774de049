-- ===== src/Pnl.antt =====
-- `compute_daily_pnl` of src/quant_execution/domain/pnl.py.
-- Prices and quantities count units of 10^-8, so a product counts units of 10^-16 and is exact,
-- where Python rounds it to 28 digits. A quotient is taken exactly and rounded once, to eight
-- places, half to even; Python rounds it to 28 digits first, which changes nothing unless it falls
-- that close to a tie.
pub mod Totals
pub mod Figures
pub mod Reporter
use quant_execution.Base.{
  ℕ, suc, ◌+◌, ◌-◌, ◌*◌, ◌/◌, ◌%◌, Text, ◌≡◌, Bool, true, false, Option, none, some, List, [], ◌∷◌,
  if◌then◌else◌, ltb, nat_eq, length, contains_text,
}
use quant_execution.Base.Int.{ℤ, pos, negsuc, pos_part, ◌+ℤ◌, ◌-ℤ◌, ◌*ℤ◌, ltb_ℤ}
use quant_execution.Domain.Enums.{ExecutionMode, is_paper_mode, PositionType, long, short}
use quant_execution.Domain.Decimal.{Decimal, unit, is_zero}
use quant_execution.Domain.Records.{Trade}
use quant_execution.Services.Rehydrate.{or_decimal}

-- Products of two decimals, in units of 10^-16.
abbrev pub Amount : Type 0
Amount = ℤ

-- `a or b` where both may be `None`.
abbrev pub or_option : Option Decimal → Option Decimal → Option Decimal
or_option none b = b
or_option (some a) b = if is_zero a then b else some a

abbrev pub gain : PositionType → Decimal → Decimal → Decimal → Amount
gain long entry exit quantity = (exit -ℤ entry) *ℤ quantity
gain short entry exit quantity = (entry -ℤ exit) *ℤ quantity

abbrev pub priced : PositionType → Option Decimal → Option Decimal → Option Decimal → Option Amount
priced t (some entry) (some exit) (some quantity) = some (gain t entry exit quantity)
priced t _ _ _ = none

-- `_trade_pnl`
unfoldable pub trade_pnl : Trade → Option Amount
trade_pnl t =
    priced t.position_type t.filled_avg_price t.exit_filled_avg_price
      (or_option t.exit_filled_quantity t.filled_quantity)

-- The variables of the loop.
pub record Tally : Type 0 where
  pub total : ℕ
  pub wins : ℕ
  pub losses : ℕ
  pub breakeven : ℕ
  pub realized : Amount
  pub invested : Amount
  pub proceeds : Amount
  pub win_sum : Amount
  pub loss_sum : Amount
  pub largest_win : Amount
  pub largest_loss : Amount
  pub symbols : List Text

abbrev pub start : Tally
start = record {
  total = 0;
  wins = 0;
  losses = 0;
  breakeven = 0;
  realized = pos 0;
  invested = pos 0;
  proceeds = pos 0;
  win_sum = pos 0;
  loss_sum = pos 0;
  largest_win = pos 0;
  largest_loss = pos 0;
  symbols = [];
}

abbrev pub larger : Amount → Amount → Amount
larger a b = if ltb_ℤ a b then b else a

abbrev pub smaller : Amount → Amount → Amount
smaller a b = if ltb_ℤ b a then b else a

abbrev add_symbol : Text → List Text → List Text
add_symbol s ss = if contains_text ss s then ss else s ∷ ss

abbrev entry_quantity : Trade → Decimal
entry_quantity t = or_decimal t.filled_quantity (or_decimal t.exit_filled_quantity (pos 0))

abbrev exit_quantity : Trade → Decimal
exit_quantity t = or_decimal t.exit_filled_quantity (entry_quantity t)

-- The last block of the loop: a win, a loss or neither.
unfoldable pub tally_result : Amount → Tally → Tally
tally_result pnl k =
    if ltb_ℤ (pos 0) pnl
    then record k {
      wins = k.wins + 1;
      win_sum = k.win_sum +ℤ pnl;
      largest_win = larger k.largest_win pnl;
    }
    else if ltb_ℤ pnl (pos 0)
    then record k {
      losses = k.losses + 1;
      loss_sum = k.loss_sum +ℤ pnl;
      largest_loss = smaller k.largest_loss pnl;
    }
    else record k { breakeven = k.breakeven + 1 }

unfoldable pub tally_pnl : Trade → Option Amount → Tally → Tally
tally_pnl t none k = k
tally_pnl t (some pnl) k = tally_result pnl (record k {
  total = k.total + 1;
  symbols = add_symbol t.symbol k.symbols;
  invested = k.invested +ℤ or_decimal t.filled_avg_price (pos 0) *ℤ entry_quantity t;
  proceeds = k.proceeds +ℤ or_decimal t.exit_filled_avg_price (pos 0) *ℤ exit_quantity t;
  realized = k.realized +ℤ pnl;
})

-- The loop of `compute_daily_pnl`.
unfoldable pub tally : List Trade → Tally → Tally
tally [] k = k
tally (t ∷ ts) k = tally ts (tally_pnl t (trade_pnl t) k)

-- `n / d` rounded to a whole number, half to even, for `d > 0`.
unfoldable pub half_even : ℕ → ℕ → ℕ
half_even n d =
    let q = n / d in
    let r = n % d in if ltb (r * 2) d then q else if ltb d (r * 2) then q + 1 else q + q % 2

unfoldable pub rounded : ℤ → ℕ → ℤ
unfolding half_even
rounded (pos n) d = pos (half_even n d)
rounded (negsuc n) d = pos 0 -ℤ pos (half_even (suc n) d)

-- `_q` of an amount: eight decimal places.
unfoldable pub quantized : Amount → Decimal
quantized a = rounded a unit

pub record DailyPnlStats : Type 0 where
  pub trade_date : ℕ
  pub execution_mode : ExecutionMode
  pub is_paper : Bool
  pub total_trades : ℕ
  pub winning_trades : ℕ
  pub losing_trades : ℕ
  pub breakeven_trades : ℕ
  pub symbols_traded : ℕ
  pub realized_pnl : Decimal
  pub amount_invested : Decimal
  pub gross_proceeds : Decimal
  pub win_rate : Decimal
  pub return_pct : Decimal
  pub average_win : Decimal
  pub average_loss : Decimal
  pub largest_win : Decimal
  pub largest_loss : Decimal

-- `_q` of a percentage and of an average; zero where the divisor is.
unfoldable pub percentage : ℤ → ℤ → Decimal
percentage a b = if ltb_ℤ (pos 0) b then rounded (a *ℤ pos 100 *ℤ pos unit) (pos_part b) else pos 0

unfoldable pub average : Amount → ℕ → Decimal
average sum n = if nat_eq n 0 then pos 0 else rounded sum (n * unit)

unfoldable pub stats_of : ℕ → ExecutionMode → Tally → DailyPnlStats
stats_of trade_date mode k = record {
  trade_date = trade_date;
  execution_mode = mode;
  is_paper = is_paper_mode mode;
  total_trades = k.total;
  winning_trades = k.wins;
  losing_trades = k.losses;
  breakeven_trades = k.breakeven;
  symbols_traded = length k.symbols;
  realized_pnl = quantized k.realized;
  amount_invested = quantized k.invested;
  gross_proceeds = quantized k.proceeds;
  win_rate = percentage (pos k.wins) (pos k.total);
  return_pct = percentage k.realized k.invested;
  average_win = average k.win_sum k.wins;
  average_loss = average k.loss_sum k.losses;
  largest_win = quantized k.largest_win;
  largest_loss = quantized k.largest_loss;
}

-- `compute_daily_pnl`
unfoldable pub compute_daily_pnl : List Trade → ℕ → ExecutionMode → DailyPnlStats
compute_daily_pnl trades trade_date mode = stats_of trade_date mode (tally trades start)
