-- ===== src/Tests/Storage.antt =====
-- The writer and the tables of src/quant_execution/repository at concrete inputs.
use quant_execution.Base.{arith, ◌≡◌, refl, true, none, some, List, [], ◌∷◌}
use quant_execution.Domain.Enums.{new, filled, paper}
use quant_execution.Domain.Records.{Change, Task, Trade, apply_changes}
use quant_execution.Repository.Trades.{
  Table, insert_row, has_id, apply_update, exists_by_idempotency_key,
}
use quant_execution.Repository.Writer.{
  Writer, apply_all, Event, put, take_batch, run, finish, apply_task, enqueue, happen, drain,
  collect_batch, collect_more,
}
use quant_execution.Repository.Writer.InOrder.{run_in_order, finish_persists}
use quant_execution.Pnl.{DailyPnlStats, compute_daily_pnl}
use quant_execution.Tests.Data.{row, base}

abbrev fresh : Trade
fresh = row 1 base new none

abbrev fill : Task
fill = Task.update 1 (Change.status filled ∷ [])

abbrev writer : Writer
writer = record { batch_size = 1; queue_size = 10; queue = []; rows = [] }

abbrev events : List Event
events = put (Task.insert fresh) ∷ take_batch true ∷ put fill ∷ []

abbrev final : Table
final = row 1 base filled none ∷ []

applied : apply_all (Task.insert fresh ∷ fill ∷ []) [] ≡ some final
unfolding apply_all apply_task insert_row has_id exists_by_idempotency_key apply_update
    apply_changes
applied = refl

run_in_order_example : apply_all (run events writer).queue (run events writer).rows ≡ some final
run_in_order_example =
    run_in_order events writer final (omega arith) (omega arith) (refl, tt) applied

run-queue : (run events writer).queue ≡ fill ∷ []
unfolding run happen enqueue drain collect_batch collect_more
run-queue = refl

finish_persists_example :
    ((finish true (run events writer)).rows ≡ final)
    × ((finish true (run events writer)).queue ≡ [])
unfolding run happen enqueue drain collect_batch collect_more
finish_persists_example =
    finish_persists events writer final (omega arith) (omega arith) (refl, tt) applied (omega arith)

-- Two tasks wait, and one is flushed.
abbrev waiting : Writer
waiting = record writer { queue = Task.insert fresh ∷ fill ∷ [] }

abbrev stats : DailyPnlStats
stats = compute_daily_pnl [] 20000 paper
