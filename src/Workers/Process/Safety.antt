-- ===== src/Workers/Process/Safety.antt =====
-- What holds of an executor process however its threads take turns.
use quant_execution.Base.{
  ℕ, suc, Text, ◌≡◌, refl, ◌∙◌, Bool, true, false, Option, none, some, List, [], ◌∷◌, ◌&&◌,
  if◌then◌else◌, inl, inr, Bool-cases,
}
use quant_execution.Domain.Clock.{ClockTime, Moment, has_reached}
use quant_execution.Domain.Enums.{market_close, is_paper_mode}
use quant_execution.Domain.Records.{Tick, WatchlistEntry, MessageMeta}
use quant_execution.Positions.Invariant.{IsWellFormed}
use quant_execution.Services.Execution.Paper.{
  PaperBook, IsQuiet, IsQuiet-bind, IsQuiet-pure, IsQuiet-raise,
}
use quant_execution.Services.Execution.Paper.Handlers.{
  execute-IsQuiet, check_exits-IsQuiet, liquidate_all-IsQuiet, record_price-IsQuiet,
}
use quant_execution.Services.Execution.{liquidate_all}
use quant_execution.Services.Execution.Shape.{liquidate_all-Keeps}
use quant_execution.Services.Liquidator.{Liquidator, maybe_liquidate, liquidate_at, not_run_on}
use quant_execution.Services.Reconciler.Shape.{reconcile_once-Keeps}
use quant_execution.Services.World.{Answers, World, Service, pure}
use quant_execution.Workers.Consumer.{Message}
use quant_execution.Workers.Executor.{
  Surroundings, is_trading_day, execute_each, process_tick, parsed, valued, process_message,
}
use quant_execution.Workers.Process.{
  Process, on_message, on_refresh, on_close_check, on_reconcile, Turn, message, refresh,
  close_check, reconcile, Runs, here, turn,
}
use quant_execution.Workers.Shape.{process_message-Keeps}

-- A check of the liquidator leaves the shared state alone or liquidates.
pub checked :
    (P : World → Type 0) (now : Moment) (ans : Answers) (lq : Liquidator) (w : World)
    → P w
    → P (liquidate_all ans market_close w).1
    → P (maybe_liquidate now ans lq w).2
unfolding maybe_liquidate
checked P now ans lq w same done = go lq.close_time
  where
    go : (t : Option ClockTime) → P (liquidate_at t now ans lq w).2
    go none = same
    go (some t) = elim (Bool-cases (has_reached now t && not_run_on lq.last_run now.day)) [
      | inl due ↦ rw due done
      | inr idle ↦ rw idle same
    ]

module _ (parse : Text → Option Tick) (sv : Service) where
  turn-IsWellFormed :
      {p q : Process} → Turn parse sv p q → IsWellFormed p.world.book → IsWellFormed q.world.book
  unfolding on_message on_refresh on_close_check on_reconcile
  turn-IsWellFormed (message today answers m p) h =
      (process_message-Keeps parse sv _ m).at p.world h
  turn-IsWellFormed (refresh now fetch p) h = h
  turn-IsWellFormed (close_check now ans p) h =
      checked (λ w. IsWellFormed w.book) now ans p.liquidator p.world h
        ((liquidate_all-Keeps ans market_close).at p.world h)
  turn-IsWellFormed (reconcile ans p live) h = (reconcile_once-Keeps ans).at p.world h

  -- However the threads of a process take turns, and whatever the messages, the clocks, the broker
  -- and the services bring, a well-formed book stays well-formed.
  pub threads-IsWellFormed :
      {p q : Process} → Runs parse sv p q → IsWellFormed p.world.book → IsWellFormed q.world.book
  threads-IsWellFormed (here p) h = h
  threads-IsWellFormed (turn before step) h = turn-IsWellFormed step (threads-IsWellFormed before h)

  module _ (paper : is_paper_mode sv.mode ≡ true) where
    execute_each-IsQuiet :
        (answers : ℕ → Answers) (tick : Tick) (meta : MessageMeta) (entries : List WatchlistEntry)
        → IsQuiet (execute_each sv answers tick meta entries)
    unfolding execute_each
    execute_each-IsQuiet answers tick meta [] = IsQuiet-pure tt
    execute_each-IsQuiet answers tick meta (entry ∷ entries) =
        IsQuiet-bind _ _ (execute-IsQuiet sv paper (answers 1) tick entry meta)
          (λ t. execute_each-IsQuiet (λ n. answers (suc n)) tick meta entries)

    process_tick-IsQuiet :
        (around : Surroundings) (meta : MessageMeta) (tick : Tick)
        → IsQuiet (process_tick sv around meta tick)
    unfolding process_tick
    process_tick-IsQuiet around meta tick =
        IsQuiet-bind _ _ (record_price-IsQuiet tick.symbol tick.price) (λ u.
          IsQuiet-bind _ _ (execute_each-IsQuiet around.answers tick meta _)
            (λ v. check_exits-IsQuiet (around.answers 0) tick))

    valued-IsQuiet :
        (around : Surroundings) (meta : MessageMeta) (v : Option Text)
        → IsQuiet (valued parse sv around meta v)
    valued-IsQuiet around meta none = IsQuiet-raise _
    valued-IsQuiet around meta (some v) = go (parse v)
      where
        go : (t : Option Tick) → IsQuiet (parsed sv around meta t)
        go none = IsQuiet-raise _
        go (some tick) = process_tick-IsQuiet around meta tick

    process_message-IsQuiet :
        (around : Surroundings) (m : Message) → IsQuiet (process_message parse sv around m)
    unfolding process_message
    process_message-IsQuiet around m = pick (is_trading_day around.today)
      where
        pick : (b : Bool) → IsQuiet (if b then valued parse sv around m.meta m.value else pure tt)
        pick true = valued-IsQuiet around m.meta m.value
        pick false = IsQuiet-pure tt

    turn-quiet :
        {p q : Process}
        → Turn parse sv p q
        → PaperBook p.world.book
        → PaperBook q.world.book × (q.world.calls ≡ p.world.calls)
    unfolding on_message on_refresh on_close_check
    turn-quiet (message today answers m p) h = (process_message-IsQuiet _ m).at p.world h
    turn-quiet (refresh now fetch p) h = (h, refl)
    turn-quiet (close_check now ans p) h =
        checked (λ w. PaperBook w.book × (w.calls ≡ p.world.calls)) now ans p.liquidator p.world
          (h, refl) ((liquidate_all-IsQuiet ans market_close).at p.world h)
    turn-quiet (reconcile ans p live) h = cc (paper, live)

    -- A paper process whose book holds paper positions calls neither the broker nor the cash
    -- service, however its threads take turns, and holds paper positions only.
    pub paper_threads_keep_quiet :
        {p q : Process}
        → Runs parse sv p q
        → PaperBook p.world.book
        → PaperBook q.world.book × (q.world.calls ≡ p.world.calls)
    paper_threads_keep_quiet (here p) h = (h, refl)
    paper_threads_keep_quiet (turn before step) h =
        let first = paper_threads_keep_quiet before h in
        let next = turn-quiet step first.0 in (next.0, next.1 ∙ first.1)
