-- ===== src/Pnl/Totals.antt =====
-- Lemmas about the loop of `compute_daily_pnl` and its figures.
use quant_execution.Base.{
  ℕ, ◌+◌, ◌≡◌, refl, ◌∙◌, ap, Option, none, some, List, [], ◌∷◌, arith, length,
}
use quant_execution.Base.Int.{pos, ◌+ℤ◌, ◌≤ℤ◌, int_laws}
use quant_execution.Domain.Enums.{ExecutionMode}
use quant_execution.Domain.Records.{Trade}
use quant_execution.Pnl.{
  Amount, Tally, start, tally, tally_pnl, tally_result, trade_pnl, compute_daily_pnl, stats_of,
  quantized,
}

abbrev pub with_amount : Option Amount → List Amount → List Amount
with_amount none rest = rest
with_amount (some a) rest = a ∷ rest

-- The realized amounts of the trades that have one, in order.
abbrev pub realized_of : List Trade → List Amount
realized_of [] = []
realized_of (t ∷ ts) = with_amount (trade_pnl t) (realized_of ts)

abbrev pub sum_of : List Amount → Amount
sum_of [] = pos 0
sum_of (a ∷ rest) = a +ℤ sum_of rest

record IsBalanced (k : Tally) : Type 0 where
  counts : k.total ≡ k.wins + k.losses + k.breakeven
  sums : k.realized ≡ k.win_sum +ℤ k.loss_sum
  wins_up : pos 0 ≤ℤ k.win_sum
  losses_down : k.loss_sum ≤ℤ pos 0
  top : pos 0 ≤ℤ k.largest_win
  bottom : k.largest_loss ≤ℤ pos 0
  top_in : k.largest_win ≤ℤ k.win_sum
  bottom_in : k.loss_sum ≤ℤ k.largest_loss

tally_pnl-IsBalanced :
    (t : Trade) (pnl : Option Amount) (k : Tally) → IsBalanced k → IsBalanced (tally_pnl t pnl k)
unfolding tally_pnl tally_result
tally_pnl-IsBalanced t none k h = h
tally_pnl-IsBalanced t (some a) k h = grind int_laws

tally-IsBalanced : (ts : List Trade) (k : Tally) → IsBalanced k → IsBalanced (tally ts k)
unfolding tally
tally-IsBalanced [] k h = h
tally-IsBalanced (t ∷ ts) k h =
    tally-IsBalanced ts (tally_pnl t (trade_pnl t) k) (tally_pnl-IsBalanced t (trade_pnl t) k h)

tally_pnl-total :
    (t : Trade) (a : Amount) (k : Tally) → (tally_pnl t (some a) k).total ≡ k.total + 1
unfolding tally_pnl tally_result
tally_pnl-total t a k = ground arith

tally_pnl-realized :
    (t : Trade) (a : Amount) (k : Tally) → (tally_pnl t (some a) k).realized ≡ k.realized +ℤ a
unfolding tally_pnl tally_result
tally_pnl-realized t a k = ground arith

tally_pnl-none : (t : Trade) (k : Tally) → tally_pnl t none k ≡ k
unfolding tally_pnl
tally_pnl-none t k = refl

abbrev RestAdded : List Trade → Tally → List Amount → Type 0
RestAdded ts k amounts =
    ((tally ts k).realized ≡ k.realized +ℤ sum_of amounts)
    × ((tally ts k).total ≡ k.total + length amounts)

one_more :
    (t : Trade) (ts : List Trade) (k : Tally) (o : Option Amount)
    → ((k : Tally) → RestAdded ts k (realized_of ts))
    → RestAdded ts (tally_pnl t o k) (realized_of ts)
    → (((tally ts (tally_pnl t o k)).realized
          ≡ k.realized +ℤ sum_of (with_amount o (realized_of ts)))
        × ((tally ts (tally_pnl t o k)).total ≡ k.total + length (with_amount o (realized_of ts))))
one_more t ts k none rest now = rw (tally_pnl-none t k) (rest k)
one_more t ts k (some a) rest now = (
  now.0 ∙ rw (tally_pnl-realized t a k) (omega int_laws),
  now.1 ∙ rw (tally_pnl-total t a k) (omega arith),
)

tally-realized : (ts : List Trade) (k : Tally) → RestAdded ts k (realized_of ts)
unfolding tally
tally-realized [] k = (omega int_laws, omega arith)
tally-realized (t ∷ ts) k =
    one_more t ts k (trade_pnl t) (tally-realized ts)
      (tally-realized ts (tally_pnl t (trade_pnl t) k))

start-IsBalanced : IsBalanced start
start-IsBalanced = record {
  counts = refl;
  sums = omega int_laws;
  wins_up = omega arith;
  losses_down = omega arith;
  top = omega arith;
  bottom = omega arith;
  top_in = omega arith;
  bottom_in = omega arith;
}

zero_left : (a : Amount) → pos 0 +ℤ a ≡ a
zero_left a = omega int_laws

-- A report counts each trade with an entry price, an exit price and a quantity once, as a win, a
-- loss or neither; its realized figure is the sum over those trades, rounded to eight places.
pub report_totals :
    (trades : List Trade) (trade_date : ℕ) (mode : ExecutionMode)
    → let stats = compute_daily_pnl trades trade_date mode in
      (stats.total_trades ≡ length (realized_of trades))
      × (stats.winning_trades + stats.losing_trades + stats.breakeven_trades ≡ stats.total_trades)
      × (stats.realized_pnl ≡ quantized (sum_of (realized_of trades)))
unfolding compute_daily_pnl stats_of
report_totals trades trade_date mode =
    let parts = tally-realized trades start in
    let balance = tally-IsBalanced trades start start-IsBalanced in
    (parts.1 ∙ omega arith, omega (arith, balance.counts), ap quantized (parts.0 ∙ zero_left _))

-- Before rounding, what is realized is what the winners made and the losers lost, the largest win
-- is at most the winners' sum, and the largest loss at least the losers'.
pub tally_balances :
    (trades : List Trade)
    → let k = tally trades start in
      (k.realized ≡ k.win_sum +ℤ k.loss_sum)
      × (pos 0 ≤ℤ k.largest_win)
      × (k.largest_win ≤ℤ k.win_sum)
      × (k.loss_sum ≤ℤ k.largest_loss)
      × (k.largest_loss ≤ℤ pos 0)
tally_balances trades =
    let b = tally-IsBalanced trades start start-IsBalanced in
    (b.sums, b.top, b.top_in, b.bottom_in, b.bottom)
