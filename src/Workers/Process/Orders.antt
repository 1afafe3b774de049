-- ===== src/Workers/Process/Orders.antt =====
-- The exits of an executor process and their orders, whatever turns its threads take.
use quant_execution.Base.{
  ℕ, suc, Text, ◌≡◌, ◌≢◌, refl, true, Option, none, some, List, [], ◌∷◌, arith,
}
use quant_execution.Domain.Enums.{exiting, market_close}
use quant_execution.Domain.Records.{Tick, WatchlistEntry, MessageMeta, Position}
use quant_execution.Positions.{find}
use quant_execution.Positions.Open.{is_among}
use quant_execution.Positions.Orders.{has_order}
use quant_execution.Services.Execution.Orders.{
  ReadsExits, execute-KeepsSound, check_exits-Sound, liquidate_all-Sound,
}
use quant_execution.Services.Reconciler.Orders.{reconcile_once-KeepsSound}
use quant_execution.Services.World.{Answers, Service}
use quant_execution.Services.World.Orders.{
  IsSound, KeepsSound, KeepsSound-bind, KeepsSound-if, KeepsSound-pure, KeepsSound-raise,
  KeepsSound-record_price,
}
use quant_execution.Workers.Consumer.{Message}
use quant_execution.Workers.Executor.{
  Surroundings, is_trading_day, execute_each, process_tick, parsed, valued, process_message,
}
use quant_execution.Workers.Process.{
  Process, on_message, on_refresh, on_close_check, on_reconcile, Turn, message, refresh,
  close_check, reconcile, Runs, here, turn,
}
use quant_execution.Workers.Process.Safety.{checked}

execute_each-KeepsSound :
    (sv : Service) (answers : ℕ → Answers) (tick : Tick) (meta : MessageMeta)
    (entries : List WatchlistEntry)
    → KeepsSound (execute_each sv answers tick meta entries)
unfolding execute_each
execute_each-KeepsSound sv answers tick meta [] = KeepsSound-pure tt
execute_each-KeepsSound sv answers tick meta (entry ∷ entries) =
    KeepsSound-bind _ _ (execute-KeepsSound sv (answers 1) tick entry meta)
      (λ t. execute_each-KeepsSound sv (λ n. answers (suc n)) tick meta entries)

module _ (sv : Service) (around : Surroundings) (reads : ReadsExits (around.answers 0)) where
  process_tick-KeepsSound :
      (meta : MessageMeta) (tick : Tick) → KeepsSound (process_tick sv around meta tick)
  unfolding process_tick
  process_tick-KeepsSound meta tick =
      KeepsSound-bind _ _ (KeepsSound-record_price tick.symbol tick.price) (λ u.
        KeepsSound-bind _ _ (execute_each-KeepsSound sv around.answers tick meta _)
          (λ v. check_exits-Sound (around.answers 0) reads tick))

  parsed-KeepsSound : (meta : MessageMeta) (t : Option Tick) → KeepsSound (parsed sv around meta t)
  parsed-KeepsSound meta none = KeepsSound-raise _
  parsed-KeepsSound meta (some tick) = process_tick-KeepsSound meta tick

  module _ (parse : Text → Option Tick) where
    valued-KeepsSound :
        (meta : MessageMeta) (v : Option Text) → KeepsSound (valued parse sv around meta v)
    valued-KeepsSound meta none = KeepsSound-raise _
    valued-KeepsSound meta (some v) = parsed-KeepsSound meta (parse v)

    process_message-KeepsSound : (m : Message) → KeepsSound (process_message parse sv around m)
    unfolding process_message
    process_message-KeepsSound m =
        KeepsSound-if (is_trading_day around.today) _ _ (valued-KeepsSound m.meta m.value)
          (KeepsSound-pure tt)

module _ (parse : Text → Option Tick) (sv : Service) where
  -- In the turn, every answer to an exit order can be read.
  abbrev pub ReadsTurn : {p q : Process} → Turn parse sv p q → Type 0
  ReadsTurn (message today answers m p) = ReadsExits (answers 0)
  ReadsTurn (refresh now fetch p) = Unit {0}
  ReadsTurn (close_check now ans p) = ReadsExits ans
  ReadsTurn (reconcile ans p live) = Unit {0}

  abbrev pub ReadsRuns : {p q : Process} → Runs parse sv p q → Type 0
  ReadsRuns (here p) = Unit {0}
  ReadsRuns (turn before step) = ReadsRuns before × ReadsTurn step

  Turn-IsSound :
      {p q : Process} (step : Turn parse sv p q)
      → ReadsTurn step
      → IsSound p.world.book
      → IsSound q.world.book
  unfolding on_message on_refresh on_close_check on_reconcile
  Turn-IsSound (message today answers m p) reads h =
      (process_message-KeepsSound sv _ reads parse m).at p.world h
  Turn-IsSound (refresh now fetch p) reads h = h
  Turn-IsSound (close_check now ans p) reads h =
      checked (λ w. IsSound w.book) now ans p.liquidator p.world h
        ((liquidate_all-Sound ans reads market_close).at p.world h)
  Turn-IsSound (reconcile ans p live) reads h = (reconcile_once-KeepsSound ans).at p.world h

  Runs-IsSound :
      {p q : Process} (run : Runs parse sv p q)
      → ReadsRuns run
      → IsSound p.world.book
      → IsSound q.world.book
  Runs-IsSound (here p) reads h = h
  Runs-IsSound (turn before step) reads h =
      Turn-IsSound step reads.1 (Runs-IsSound before reads.0 h)

  known : (p : Position) → p.state ≡ exiting → has_order p ≡ true → p.exit_broker_order_id ≢ none
  known p state h gone = ground arith

  -- However the threads of a process take turns: if every answer of the broker to an exit order can
  -- be read, and at the start the book is well-formed and each position that is being exited has
  -- the id of its exit order, then in the end each position of the book that is being exited has one.
  pub exits_have_orders :
      {p q : Process} (run : Runs parse sv p q)
      → ReadsRuns run
      → IsSound p.world.book
      → (s : Text) (i : ℕ) (held : Position) → find s i q.world.book ≡ some held
      → held.state ≡ exiting
      → held.exit_broker_order_id ≢ none
  exits_have_orders run reads start s i held found state =
      known held state
        ((Runs-IsSound run reads start).orders.at s i held found (unfold is_among in refl))
