-- ===== src/Services/Liquidator.antt =====
-- `class MarketCloseLiquidator` of src/quant_execution/domain/services.py.
pub mod Loop
pub mod Emptied
use quant_execution.Base.{
  ℕ, ◌≡◌, Bool, true, ◌&&◌, not, Option, none, some, arith, inl, inr, if◌then◌else◌, nat_eq,
  Option-cases,
}
use quant_execution.Domain.Enums.{market_close}
use quant_execution.Domain.Clock.{ClockTime, Moment, has_reached}
use quant_execution.Services.World.{Answers, Result, ok, World}
use quant_execution.Services.Execution.{liquidate_all}

pub record Liquidator : Type 0 where
  pub close_time : Option ClockTime
  pub last_run : Option ℕ

-- `self._last_run != today`
abbrev pub not_run_on : Option ℕ → ℕ → Bool
not_run_on none today = true
not_run_on (some d) today = not (nat_eq d today)

abbrev pub liquidate_at :
    Option ClockTime → Moment → Answers → Liquidator → World → Liquidator × Result ℕ × World
liquidate_at none now ans lq w = (lq, ok 0, w)
liquidate_at (some t) now ans lq w =
    if has_reached now t && not_run_on lq.last_run now.day
    then (
      record lq { last_run = some now.day },
      (liquidate_all ans market_close w).0,
      (liquidate_all ans market_close w).1,
    )
    else (lq, ok 0, w)

-- `maybe_liquidate`, with the liquidator's own state beside the shared one. The day is marked
-- before the positions are liquidated.
unfoldable pub maybe_liquidate :
    Moment → Answers → Liquidator → World → Liquidator × Result ℕ × World
maybe_liquidate now ans lq w = liquidate_at lq.close_time now ans lq w

-- Once a check has been made at or after the close time, no further check of that day liquidates
-- anything, whether the first one returned or raised.
pub liquidate_once_a_day :
    (now later : Moment) (ans ans' : Answers) (lq : Liquidator) (w w' : World) (t : ClockTime)
    → lq.close_time ≡ some t
    → has_reached now t ≡ true
    → later.day ≡ now.day
    → maybe_liquidate later ans' (maybe_liquidate now ans lq w).0 w'
      ≡ ((maybe_liquidate now ans lq w).0, ok 0, w')
unfolding maybe_liquidate
liquidate_once_a_day now later ans ans' lq w w' t closes due same =
    elim (Option-cases lq.last_run) [ inl first ↦ ground arith | inr (d, ran) ↦ ground arith ]
