-- ===== src/Services/Liquidator/Loop.antt =====
-- `run_forever` of `class MarketCloseLiquidator` (src/quant_execution/domain/services.py): the list
-- of its wake-ups. Between two of them the other threads act on the shared state.
use quant_execution.Base.{
  ℕ, ◌≡◌, refl, ap, ◌∙◌, true, false, some, List, [], ◌∷◌, ◌++◌, arith, All, inl, inr, Option-cases,
}
use quant_execution.Domain.Clock.{ClockTime, Moment, has_reached}
use quant_execution.Domain.Enums.{market_close}
use quant_execution.Services.Execution.{liquidate_all}
use quant_execution.Services.Liquidator.{Liquidator, maybe_liquidate, not_run_on}
use quant_execution.Services.World.{Answers, World, ok}

-- One round of the loop: what the other threads did since the last one, the clock, the answers.
pub record WakeUp : Type 0 where
  pub meanwhile : World → World
  pub now : Moment
  pub ans : Answers

-- The loop: an exception of a check is logged, and the loop goes on.
unfoldable pub wake_ups : List WakeUp → Liquidator × World → Liquidator × World
wake_ups [] st = st
wake_ups (u ∷ us) (lq, w) =
    let done = maybe_liquidate u.now u.ans lq (u.meanwhile w) in wake_ups us (done.0, done.2)

-- What the other threads alone do.
abbrev pub others : List WakeUp → World → World
others [] w = w
others (u ∷ us) w = others us (u.meanwhile w)

abbrev pub Early : ClockTime → WakeUp → Type 0
Early t u = has_reached u.now t ≡ false

abbrev pub OnDay : ℕ → WakeUp → Type 0
OnDay d u = u.now.day ≡ d

abbrev pub ran_on : ℕ → Liquidator → Liquidator
ran_on d lq = record lq { last_run = some d }

module _ (lq : Liquidator) (t : ClockTime) (closes : lq.close_time ≡ some t) where
  idle_early :
      (now : Moment) (ans : Answers) (w : World)
      → has_reached now t ≡ false
      → maybe_liquidate now ans lq w ≡ (lq, ok 0, w)
  unfolding maybe_liquidate
  idle_early now ans w early = rw closes (rw early refl)

  liquidates :
      (now : Moment) (ans : Answers) (w : World)
      → has_reached now t ≡ true
      → not_run_on lq.last_run now.day ≡ true
      → maybe_liquidate now ans lq w ≡ (
        ran_on now.day lq,
        (liquidate_all ans market_close w).0,
        (liquidate_all ans market_close w).1,
      )
  unfolding maybe_liquidate
  liquidates now ans w due fresh = rw closes (rw (due, fresh) refl)

  wake_ups_before :
      (early rest : List WakeUp) (w : World)
      → All (Early t) early
      → wake_ups (early ++ rest) (lq, w) ≡ wake_ups rest (lq, others early w)
  unfolding wake_ups
  wake_ups_before [] rest w h = refl
  wake_ups_before (u ∷ early) rest w h =
      ap (λ r. wake_ups (early ++ rest) (r.0, r.2)) (idle_early u.now u.ans (u.meanwhile w) h.0)
      ∙ wake_ups_before early rest (u.meanwhile w) h.1

idle_again :
    (lq : Liquidator) (now : Moment) (ans : Answers) (w : World)
    → lq.last_run ≡ some now.day
    → maybe_liquidate now ans lq w ≡ (lq, ok 0, w)
unfolding maybe_liquidate
idle_again lq now ans w ran = elim (Option-cases lq.close_time) [
  | inl never ↦ rw never refl
  | inr (t, closes) ↦ ground (arith, closes)
]

wake_ups_later :
    (d : ℕ) (lq : Liquidator) (later : List WakeUp) (w : World)
    → lq.last_run ≡ some d
    → All (OnDay d) later
    → wake_ups later (lq, w) ≡ (lq, others later w)
unfolding wake_ups
wake_ups_later d lq [] w ran h = refl
wake_ups_later d lq (u ∷ later) w ran h =
    ap (λ r. wake_ups later (r.0, r.2)) (idle_again lq u.now u.ans (u.meanwhile w) (rw h.0 ran))
    ∙ wake_ups_later d lq later (u.meanwhile w) ran h.1

-- On a day on which it has not run, the loop liquidates once, at its first wake-up at or after the
-- close time: before and after that only the other threads act on the shared state, whatever the
-- liquidation returned or raised.
pub wake_ups_once :
    (lq : Liquidator) (t : ClockTime) (early later : List WakeUp) (due : WakeUp) (w : World)
    → lq.close_time ≡ some t
    → All (Early t) early
    → has_reached due.now t ≡ true
    → not_run_on lq.last_run due.now.day ≡ true
    → All (OnDay due.now.day) later
    → wake_ups (early ++ due ∷ later) (lq, w) ≡ (
      ran_on due.now.day lq,
      others later (liquidate_all due.ans market_close (due.meanwhile (others early w))).1,
    )
wake_ups_once lq t early later due w closes before reached fresh same =
    wake_ups_before lq t closes early (due ∷ later) w before
    ∙ unfold wake_ups in
      (ap (λ r. wake_ups later (r.0, r.2))
        (liquidates lq t closes due.now due.ans (due.meanwhile (others early w)) reached fresh))
      ∙ wake_ups_later due.now.day (ran_on due.now.day lq) later _ refl same
