-- ===== src/Workers/Recovery/Restarts.antt =====
-- A crash of a paper executor: the book that `rehydrate_positions` of
-- src/quant_execution/workers/executor.py rebuilds is the book that was lost.
use quant_execution.Base.{
  ℕ, suc, Text, ◌≡◌, sym, ◌∙◌, subst, Bool, true, false, Option, none, some, List, [], ◌∷◌,
  if◌then◌else◌, text_keys, nat_keys,
}
use quant_execution.Domain.Decimal.{Decimal}
use quant_execution.Domain.Enums.{market_close, is_paper_mode}
use quant_execution.Domain.Records.{Tick, WatchlistEntry, MessageMeta}
use quant_execution.Matching.Refresher.{Refresher}
use quant_execution.Positions.{find}
use quant_execution.Positions.Invariant.{IsWellFormed}
use quant_execution.Repository.Trades.{Table}
use quant_execution.Repository.Writer.{apply_all}
use quant_execution.Services.Liquidator.{Liquidator}
use quant_execution.Services.World.{Answers, World, Service, pure, record_price}
use quant_execution.Workers.Consumer.{Message}
use quant_execution.Workers.Executor.{
  Surroundings, is_trading_day, execute_each, process_tick, parsed, valued, process_message,
}
use quant_execution.Workers.Process.{
  Process, on_message, on_refresh, on_close_check, Turn, message, refresh, close_check, reconcile,
  Runs, here, turn,
}
use quant_execution.Workers.Process.Restart.{
  restarted, restarted-IsWellFormed, restarted_paper_keeps_quiet,
}
use quant_execution.Workers.Process.Safety.{checked}
use quant_execution.Workers.Recovery.{Mirrors}
use quant_execution.Workers.Recovery.Entries.{
  Tracked, IsTracked, IsTracked-bind, IsTracked-pure, IsTracked-raise, execute-IsTracked,
}
use quant_execution.Workers.Recovery.Exits.{check_exits-IsTracked, liquidate_all-IsTracked}
use quant_execution.Workers.Recovery.Rebuilt.{
  FitsQuery, IsRestorable, rebuilt-Mirrors, rebuilt-OpenBut, rebuilt-held, held-OnlyFilled,
}
use quant_execution.Workers.Recovery.{settled_open}
use quant_execution.Repository.Rows.Tasks.{apply_all-DistinctIds}
use quant_execution.Workers.Rehydration.{rebuild, rehydrate_positions}

module _ (parse : Text → Option Tick) (sv : Service) (paper : is_paper_mode sv.mode ≡ true)
    (refresher : Refresher) (liquidator : Liquidator) (w : World) (fresh : w.book ≡ []) where
  module _ (rows0 : Table) where
    execute_each-IsTracked :
        (answers : ℕ → Answers) (tick : Tick) (meta : MessageMeta) (entries : List WatchlistEntry)
        → IsTracked rows0 (execute_each sv answers tick meta entries)
    unfolding execute_each
    execute_each-IsTracked answers tick meta [] = IsTracked-pure rows0 tt
    execute_each-IsTracked answers tick meta (entry ∷ entries) =
        IsTracked-bind rows0 _ _ (execute-IsTracked rows0 sv paper (answers 1) tick entry meta)
          (λ t. execute_each-IsTracked (λ n. answers (suc n)) tick meta entries)

    record_price-IsTracked : (s : Text) (price : Decimal) → IsTracked rows0 (record_price s price)
    unfolding record_price
    record_price-IsTracked s price = record {
      at = λ u h. record {
        shape = h.shape;
        paper = h.paper;
        steady = h.steady;
        mirrors = h.mirrors;
      };
    }

    process_tick-IsTracked :
        (around : Surroundings) (meta : MessageMeta) (tick : Tick)
        → IsTracked rows0 (process_tick sv around meta tick)
    unfolding process_tick
    process_tick-IsTracked around meta tick =
        IsTracked-bind rows0 _ _ (record_price-IsTracked tick.symbol tick.price) (λ u.
          IsTracked-bind rows0 _ _ (execute_each-IsTracked around.answers tick meta _)
            (λ v. check_exits-IsTracked rows0 (around.answers 0) tick))

    valued-IsTracked :
        (around : Surroundings) (meta : MessageMeta) (v : Option Text)
        → IsTracked rows0 (valued parse sv around meta v)
    valued-IsTracked around meta none = IsTracked-raise rows0 _
    valued-IsTracked around meta (some v) = go (parse v)
      where
        go : (t : Option Tick) → IsTracked rows0 (parsed sv around meta t)
        go none = IsTracked-raise rows0 _
        go (some tick) = process_tick-IsTracked around meta tick

    process_message-IsTracked :
        (around : Surroundings) (m : Message) → IsTracked rows0 (process_message parse sv around m)
    unfolding process_message
    process_message-IsTracked around m = pick (is_trading_day around.today)
      where
        pick :
            (b : Bool)
            → IsTracked rows0 (if b then valued parse sv around m.meta m.value else pure tt)
        pick true = valued-IsTracked around m.meta m.value
        pick false = IsTracked-pure rows0 tt

    Turn-Tracked :
        {p q : Process} → Turn parse sv p q → Tracked rows0 [] p.world → Tracked rows0 [] q.world
    unfolding on_message on_refresh on_close_check
    Turn-Tracked (message today answers m p) h = (process_message-IsTracked _ m).at p.world h
    Turn-Tracked (refresh now fetch p) h = h
    Turn-Tracked (close_check now ans p) h =
        checked (Tracked rows0 []) now ans p.liquidator p.world h
          ((liquidate_all-IsTracked rows0 ans market_close).at p.world h)
    Turn-Tracked (reconcile ans p live) h = cc (paper, live)

    pub Runs-Tracked :
        {p q : Process} → Runs parse sv p q → Tracked rows0 [] p.world → Tracked rows0 [] q.world
    Runs-Tracked (here p) h = h
    Runs-Tracked (turn before step) h = Turn-Tracked step (Runs-Tracked before h)

  module _ (idle : w.tasks ≡ []) (rows0 : Table) (ok : IsRestorable rows0) where
    empty_shape : IsWellFormed w.book
    empty_shape = rw fresh (record { keys = tt; buckets = tt })

    pub started-Tracked : Tracked rows0 [] (restarted sv (some rows0) refresher liquidator w).world
    unfolding rehydrate_positions rebuild apply_all
    started-Tracked = record {
      shape =
          restarted-IsWellFormed parse sv (some rows0) refresher liquidator w empty_shape (here _);
      paper =
          (restarted_paper_keeps_quiet parse sv (some rows0) refresher liquidator w paper
            (rw fresh tt) (here _)).0;
      steady = rebuilt-OpenBut sv paper refresher liquidator w fresh rows0 ok;
      mirrors = λ rows applied.
          let same : rows0 ≡ rows = cc (rw (idle, apply_all) at applied) in
          subst (Mirrors _) same (rebuilt-Mirrors sv paper refresher liquidator w fresh rows0 ok);
    }

    -- A paper process starts on a restorable table, from an empty book and with no task, and its
    -- threads run in any order. If the tasks that it has written since make rows of that table, and
    -- the query for these is not cut, then a process that starts on those rows holds, under each
    -- symbol and trade id, exactly what the first one holds there, and the rows are restorable
    -- again.
    pub restart_recovers :
        {q : Process} (rows : Table)
        → Runs parse sv (restarted sv (some rows0) refresher liquidator w) q
        → apply_all q.world.tasks rows0 ≡ some rows
        → FitsQuery rows
        → ((s : Text) (i : ℕ)
            → find s i (restarted sv (some rows) refresher liquidator w).world.book
              ≡ find s i q.world.book)
          × IsRestorable rows
    restart_recovers rows run applied few =
        let end = Runs-Tracked rows0 run started-Tracked in
        let mirror = end.mirrors rows applied in
        let ids = apply_all-DistinctIds _ rows0 rows applied ok.ids in
        (
          λ s i.
              rebuilt-held sv paper refresher liquidator w fresh rows s i ids few
              ∙ sym (mirror.at s i)
              ∙ settled_open s i _ end.steady,
          record { ids = ids; fits = few; only = held-OnlyFilled _ rows mirror },
        )
