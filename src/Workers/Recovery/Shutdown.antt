-- ===== src/Workers/Recovery/Shutdown.antt =====
-- A shutdown of a paper executor after which the next start finds its book again: the writer of
-- src/quant_execution/repository/async_writer.py beside the process.
use quant_execution.Base.{ℕ, Text, ◌≤◌, ◌≡◌, true, Option, some, List, [], length, arith}
use quant_execution.Domain.Enums.{is_paper_mode}
use quant_execution.Domain.Records.{Tick}
use quant_execution.Matching.Refresher.{Refresher}
use quant_execution.Positions.{find}
use quant_execution.Repository.Trades.{Table}
use quant_execution.Repository.Writer.{Writer, Event, apply_all, run, finish}
use quant_execution.Repository.Writer.InOrder.{puts, AllCommit, finish_persists}
use quant_execution.Services.Liquidator.{Liquidator}
use quant_execution.Services.World.{World, Service}
use quant_execution.Workers.Process.{Process, Runs}
use quant_execution.Workers.Process.Restart.{restarted}
use quant_execution.Workers.Recovery.Rebuilt.{FitsQuery, IsRestorable}
use quant_execution.Workers.Recovery.Restarts.{restart_recovers}

module _ (parse : Text → Option Tick) (sv : Service) (paper : is_paper_mode sv.mode ≡ true)
    (refresher : Refresher) (liquidator : Liquidator) (w : World) (fresh : w.book ≡ [])
    (idle : w.tasks ≡ []) (writer : Writer) (empty : writer.queue ≡ [])
    (batch : 1 ≤ writer.batch_size) (ok : IsRestorable writer.rows) where
  -- A paper process starts on the writer's table, which is restorable, from an empty book and with
  -- an empty queue. Its threads run in any order, and the writer is given its tasks, in order, among
  -- batches that all commit; the queue has room for them, they make rows of the table for which the
  -- query is not cut, and at most one batch waits in the end. Then, after the final flush, a process
  -- that starts on the writer's table holds, under each symbol and trade id, exactly what the first
  -- one held there, and the table is restorable again.
  pub stop_and_restart :
      {q : Process} (events : List Event) (rows : Table)
      → Runs parse sv (restarted sv (some writer.rows) refresher liquidator w) q
      → puts events ≡ q.world.tasks
      → length (puts events) ≤ writer.queue_size
      → AllCommit events
      → apply_all q.world.tasks writer.rows ≡ some rows
      → length (run events writer).queue ≤ (run events writer).batch_size
      → FitsQuery rows
      → let left = (finish true (run events writer)).rows in
        ((s : Text) (i : ℕ)
          → find s i (restarted sv (some left) refresher liquidator w).world.book
            ≡ find s i q.world.book)
        × IsRestorable left
  stop_and_restart events rows ran given room commit applied short few =
      let flushed =
        finish_persists events writer rows batch (rw empty (omega (arith, room))) commit
          (rw (empty, given) applied) short in
      rw flushed.0 (
        restart_recovers parse sv paper refresher liquidator w fresh idle writer.rows ok rows ran
          applied few)
