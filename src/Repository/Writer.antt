-- ===== src/Repository/Writer.antt =====
-- src/quant_execution/repository/async_writer.py: the bounded queue and the thread that drains it.
-- A run is a sequence of events, a task put by a handler or a batch taken by the thread; the thread
-- takes each batch as one event, since a task put while it collects could as well come after it.
pub mod InOrder
pub mod Lost
use quant_execution.Base.{
  ℕ, zero, suc, ◌-◌, Bool, true, false, ◌&&◌, Option, none, some, List, [], ◌∷◌, ◌++◌,
  if◌then◌else◌, ltb, leb, length,
}
use quant_execution.Domain.Records.{Task, insert, update}
use quant_execution.Repository.Trades.{Table, insert_row, apply_update}

-- `queue` is what waits; `rows` are the committed rows.
pub record Writer : Type 0 where
  pub batch_size : ℕ
  pub queue_size : ℕ
  pub queue : List Task
  pub rows : Table

-- `_enqueue`: `queue.Queue` of a size that is not positive has no bound.
unfoldable pub enqueue : Task → Writer → Writer
enqueue task w =
    if ltb 0 w.queue_size && leb w.queue_size (length w.queue)
    then w
    else record w { queue = w.queue ++ task ∷ [] }

-- The loop of `_collect_batch`, with the room that is left in the batch.
unfoldable pub collect_more : ℕ → List Task → List Task × List Task
collect_more zero queue = ([], queue)
collect_more (suc room) [] = ([], [])
collect_more (suc room) (task ∷ queue) =
    let rest = collect_more room queue in (task ∷ rest.0, rest.1)

-- `_collect_batch`: the batch, and the queue after it.
unfoldable pub collect_batch : ℕ → List Task → List Task × List Task
collect_batch size [] = ([], [])
collect_batch size (first ∷ queue) =
    let rest = collect_more (size - 1) queue in (first ∷ rest.0, rest.1)

-- One iteration of the loop of `_flush`.
unfoldable pub apply_task : Task → Table → Option Table
apply_task (insert trade) rows = insert_row trade rows
apply_task (update i fields) rows = some (apply_update i fields rows)

-- The loop of `_flush` in its transaction; `none` where a task raises.
unfoldable pub apply_all : List Task → Table → Option Table
apply_all [] rows = some rows
apply_all (task ∷ tasks) rows = elim (apply_task task rows) [
  | none ↦ none
  | some rows' ↦ apply_all tasks rows'
]

abbrev pub or_rolled_back : Table → Option Table → Table
or_rolled_back rows none = rows
or_rolled_back rows (some rows') = rows'

-- `_flush`, where `commits` tells whether the session opens and commits: an exception rolls the
-- whole batch back and is logged.
unfoldable pub flush : Bool → List Task → Table → Table
flush false batch rows = rows
flush true batch rows = or_rolled_back rows (apply_all batch rows)

-- An iteration of `run_forever`, and its end: collect a batch and flush it.
unfoldable pub drain : Bool → Writer → Writer
drain commits w =
    let batch = collect_batch w.batch_size w.queue in
    record w { queue = batch.1; rows = flush commits batch.0 w.rows }

pub data Event : Type 0 where
  put : Task → Event
  take_batch : Bool → Event

unfoldable pub happen : Event → Writer → Writer
happen (put task) w = enqueue task w
happen (take_batch commits) w = drain commits w

unfoldable pub run : List Event → Writer → Writer
run [] w = w
run (e ∷ es) w = run es (happen e w)

-- `run_forever` from the stop signal on: the final flush.
unfoldable pub finish : Bool → Writer → Writer
finish commits w = drain commits w
