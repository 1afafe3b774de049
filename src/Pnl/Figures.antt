-- ===== src/Pnl/Figures.antt =====
-- The figures of `compute_daily_pnl` of src/quant_execution/domain/pnl.py, beside what the trades
-- say one by one.
use quant_execution.Base.{
  ℕ, suc, ◌+◌, ◌*◌, ◌≤◌, ◌≡◌, refl, subst, ◌∙◌, Bool, true, false, Option, none, some, List, [],
  ◌∷◌, arith, if◌then◌else◌,
}
use quant_execution.Base.Int.{pos, negsuc, pos_part, neg_part, ◌+ℤ◌, ◌-ℤ◌, ◌*ℤ◌, ltb_ℤ, int_laws}
use quant_execution.Domain.Decimal.{Decimal, is_zero}
use quant_execution.Domain.Enums.{ExecutionMode, PositionType, long, short}
use quant_execution.Domain.Records.{Trade}
use quant_execution.Pnl.{
  Amount, Tally, start, half_even, rounded, quantized, trade_pnl, tally, tally_pnl, tally_result,
  compute_daily_pnl, stats_of,
}
use quant_execution.Pnl.Reporter.Counts.{one_if, count_of, has_figures, realized_of-length}
use quant_execution.Pnl.Totals.{report_totals}

half_even-near :
    (n : ℕ)
    → (n * 2 ≤ half_even n 100000000 * 200000000 + 100000000)
      × (half_even n 100000000 * 200000000 ≤ n * 2 + 100000000)
unfolding half_even
half_even-near n = ground arith

-- `r`, in units of 10^-8, is `s`, in units of 10^-16, to the nearest unit of 10^-8.
abbrev pub IsNearest : Decimal → Amount → Type 0
IsNearest r s =
    (pos_part s * 2 + neg_part r * 200000000 ≤ pos_part r * 200000000 + neg_part s * 2 + 100000000)
    × (pos_part r * 200000000 + neg_part s * 2
        ≤ pos_part s * 2 + neg_part r * 200000000 + 100000000)

quantized-IsNearest : (s : Amount) → IsNearest (quantized s) s
unfolding quantized rounded ◌-ℤ◌
quantized-IsNearest (pos n) = ground (arith, half_even-near n)
quantized-IsNearest (negsuc n) = ground (arith, half_even-near (suc n))

-- What a position makes: the rise of the price for a long one, the fall for a short one.
abbrev made : PositionType → Decimal → Decimal → Decimal → Amount
made long bought sold quantity = (sold -ℤ bought) *ℤ quantity
made short bought sold quantity = (bought -ℤ sold) *ℤ quantity

-- The quantity of the exit, or that of the entry where the exit has none or zero.
abbrev traded : Option Decimal → Option Decimal → Option Decimal
traded none entry = entry
traded (some q) entry = if is_zero q then entry else some q

abbrev made_of : PositionType → Option Decimal → Option Decimal → Option Decimal → Option Amount
made_of type (some bought) (some sold) (some quantity) = some (made type bought sold quantity)
made_of type _ _ _ = none

-- What a trade made, if it has both prices and a quantity.
abbrev pub profit : Trade → Option Amount
profit t =
    made_of t.position_type t.filled_avg_price t.exit_filled_avg_price
      (traded t.exit_filled_quantity t.filled_quantity)

abbrev pub is_gain : Option Amount → Bool
is_gain none = false
is_gain (some a) = ltb_ℤ (pos 0) a

abbrev pub is_loss : Option Amount → Bool
is_loss none = false
is_loss (some a) = ltb_ℤ a (pos 0)

abbrev is_there : Option Amount → Bool
is_there none = false
is_there (some a) = true

abbrev pub made_by : List Trade → Amount
made_by [] = pos 0
made_by (t ∷ ts) = elim (profit t) [ none ↦ made_by ts | some a ↦ a +ℤ made_by ts ]

trade_pnl-profit : (t : Trade) → trade_pnl t ≡ profit t
unfolding trade_pnl
trade_pnl-profit t = ground arith

abbrev Adds : List Trade → Tally → Type 0
Adds ts k =
    ((tally ts k).total ≡ k.total + count_of (λ t. is_there (profit t)) ts)
    × ((tally ts k).wins ≡ k.wins + count_of (λ t. is_gain (profit t)) ts)
    × ((tally ts k).losses ≡ k.losses + count_of (λ t. is_loss (profit t)) ts)
    × ((tally ts k).realized ≡ k.realized +ℤ made_by ts)

one_step :
    (t : Trade) (o : Option Amount) (k : Tally) (rest : Amount)
    → let k' = tally_pnl t o k in
      (k'.total ≡ k.total + one_if (is_there o))
      × (k'.wins ≡ k.wins + one_if (is_gain o))
      × (k'.losses ≡ k.losses + one_if (is_loss o))
      × (k'.realized +ℤ rest
          ≡ k.realized +ℤ elim o as (λ x. Amount) [ none ↦ rest | some a ↦ a +ℤ rest ])
unfolding tally_pnl tally_result
one_step t none k rest = (omega arith, omega arith, omega arith, refl)
one_step t (some a) k rest = (ground arith, ground arith, ground arith, grind int_laws)

tally-Adds : (ts : List Trade) (k : Tally) → Adds ts k
unfolding tally
tally-Adds [] k = (omega arith, omega arith, omega arith, omega int_laws)
tally-Adds (t ∷ ts) k =
    let rest = tally-Adds ts (tally_pnl t (trade_pnl t) k) in
    let first = one_step t (profit t) k (made_by ts) in
    let same = trade_pnl-profit t in
    (
      rest.0 ∙ rw same (omega (arith, first.0)),
      rest.1 ∙ rw same (omega (arith, first.1)),
      rest.2 ∙ rw same (omega (arith, first.2)),
      rest.3 ∙ rw same first.3,
    )

zero_left : (a : Amount) → pos 0 +ℤ a ≡ a
zero_left a = omega int_laws

-- A report counts the trades that have both prices and a quantity; as wins those that made more
-- than nothing, which for a long position is a rise of the price and for a short one a fall; as
-- losses those that made less; the rest as neither. Its realized figure is what these trades made
-- together, to the nearest of eight places.
pub report_figures :
    (trades : List Trade) (trade_date : ℕ) (mode : ExecutionMode)
    → let stats = compute_daily_pnl trades trade_date mode in
      (stats.total_trades ≡ count_of has_figures trades)
      × (stats.winning_trades ≡ count_of (λ t. is_gain (profit t)) trades)
      × (stats.losing_trades ≡ count_of (λ t. is_loss (profit t)) trades)
      × (stats.winning_trades + stats.losing_trades + stats.breakeven_trades ≡ stats.total_trades)
      × IsNearest stats.realized_pnl (made_by trades)
unfolding compute_daily_pnl stats_of
report_figures trades trade_date mode =
    let adds = tally-Adds trades start in
    let totals = report_totals trades trade_date mode in
    (
      totals.0 ∙ realized_of-length trades,
      adds.1 ∙ omega arith,
      adds.2 ∙ omega arith,
      totals.1,
      subst (λ a. IsNearest (quantized (tally trades start).realized) a)
          (adds.3 ∙ zero_left (made_by trades)) (quantized-IsNearest (tally trades start).realized),
    )
