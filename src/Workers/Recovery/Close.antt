-- ===== src/Workers/Recovery/Close.antt =====
-- A paper process of src/quant_execution/workers/executor.py at the market's close.
use quant_execution.Base.{
  Text, ◌≡◌, refl, ◌∙◌, true, ◌&&◌, Option, none, some, [], inl, inr, Bool-cases,
}
use quant_execution.Domain.Clock.{ClockTime, Moment, has_reached}
use quant_execution.Domain.Enums.{market_close, is_paper_mode}
use quant_execution.Domain.Records.{Tick}
use quant_execution.Matching.Refresher.{Refresher}
use quant_execution.Positions.{book_len}
use quant_execution.Repository.Trades.{Table}
use quant_execution.Services.Liquidator.{Liquidator, not_run_on, liquidate_at, maybe_liquidate}
use quant_execution.Services.Liquidator.Emptied.{liquidate_all-Empties, maybe_liquidate-Empties}
use quant_execution.Services.World.{Answers, ok, World, Service}
use quant_execution.Workers.Process.{
  Process, on_message, on_refresh, on_close_check, on_reconcile, Turn, message, refresh,
  close_check, reconcile, Runs, here, turn,
}
use quant_execution.Workers.Process.Restart.{restarted}
use quant_execution.Workers.Recovery.Rebuilt.{IsRestorable}
use quant_execution.Workers.Recovery.Restarts.{Runs-Tracked, started-Tracked}

check-close_time :
    (now : Moment) (ans : Answers) (lq : Liquidator) (w : World)
    → (maybe_liquidate now ans lq w).0.close_time ≡ lq.close_time
unfolding maybe_liquidate
check-close_time now ans lq w = go lq.close_time
  where
    go : (t : Option ClockTime) → (liquidate_at t now ans lq w).0.close_time ≡ lq.close_time
    go none = refl
    go (some t) = elim (Bool-cases (has_reached now t && not_run_on lq.last_run now.day)) [
      | inl due ↦ rw due refl
      | inr idle ↦ rw idle refl
    ]

module _ (parse : Text → Option Tick) (sv : Service) where
  Turn-close_time :
      {p q : Process} → Turn parse sv p q → q.liquidator.close_time ≡ p.liquidator.close_time
  unfolding on_message on_refresh on_close_check on_reconcile
  Turn-close_time (message today answers m p) = refl
  Turn-close_time (refresh now fetch p) = refl
  Turn-close_time (close_check now ans p) = check-close_time now ans p.liquidator p.world
  Turn-close_time (reconcile ans p live) = refl

  Runs-close_time :
      {p q : Process} → Runs parse sv p q → q.liquidator.close_time ≡ p.liquidator.close_time
  Runs-close_time (here p) = refl
  Runs-close_time (turn before step) = Turn-close_time step ∙ Runs-close_time before

  module _ (paper : is_paper_mode sv.mode ≡ true) (refresher : Refresher) (liquidator : Liquidator)
      (w : World) (fresh : w.book ≡ []) (idle : w.tasks ≡ []) (rows0 : Table)
      (ok_rows : IsRestorable rows0) (t : ClockTime) (closes : liquidator.close_time ≡ some t) where
    -- A paper process starts on a restorable table, from an empty book and with no task, with a
    -- close time, and its threads run in any order. Then a check that is made at or after the close
    -- time, on a day that the liquidator has not run on, leaves no position in the book, and returns
    -- how many there were.
    pub close_empties :
        {q : Process} (now : Moment) (ans : Answers)
        → Runs parse sv (restarted sv (some rows0) refresher liquidator w) q
        → has_reached now t ≡ true
        → not_run_on q.liquidator.last_run now.day ≡ true
        → ((on_close_check now ans q).world.book ≡ [])
          × ((maybe_liquidate now ans q.liquidator q.world).1 ≡ ok (book_len q.world.book))
    unfolding on_close_check
    close_empties {q = q} now ans run due first =
        let start =
          started-Tracked parse sv paper refresher liquidator w fresh idle rows0 ok_rows in
        let end = Runs-Tracked parse sv paper refresher liquidator w fresh rows0 run start in
        let done =
          maybe_liquidate-Empties ans now q.liquidator t q.world (Runs-close_time run ∙ closes) due
            first (liquidate_all-Empties ans market_close q.world end.shape end.paper end.steady) in
        (done.1, done.0)
