-- ===== src/Tests/Recovery.antt =====
-- A paper process, its writer and its next start at concrete inputs.
use quant_execution.Base.{
  ℕ, Text, ◌≡◌, refl, sym, ap, ◌∙◌, arith, codes, true, false, none, some, List, [], ◌∷◌, ◌++◌,
  text_eq, contains_text,
}
use quant_execution.Base.Int.{pos}
use quant_execution.Workers.Executor.{
  process_message, is_trading_day, weekday, process_tick, execute_each,
}
use quant_execution.Services.World.{record_price}
use quant_execution.Matching.Store.{match_entries, entry_matches}
use quant_execution.Base.Dict.{lookup, insert}
use quant_execution.Base.Int.{◌+ℤ◌, ◌*ℤ◌, ◌-ℤ◌}
use quant_execution.Services.Execution.{
  execute, check_exits, claim, enter, fill_paper, submit_exits, take_key,
}
use quant_execution.Services.Keys.{
  claim_key, seed, add_key, all_digits, attempt_of, build_idempotency_key, civil, compose_key,
  isdigit, isoformat, rpartition_r, split_attempt,
}
use quant_execution.Workers.Rehydration.{rehydrate_positions, rebuild, open_all}
use quant_execution.Base.Sort.{insert_with, sort_with}
use quant_execution.Domain.Decimal.{is_zero}
use quant_execution.Positions.{claim_exits, claim_in, exit_triggered, open_position}
use quant_execution.Services.Rehydrate.{is_rehydrated, position_from_trade, rehydrated_state}
use quant_execution.Services.Sizing.{compute_sizing, divide_down, shares_sized}
use quant_execution.Domain.Enums.{live, filled, is_paper_mode, entry_side, is_opened, mode_value}
use quant_execution.Domain.Records.{Change, Task, Trade, apply_changes}
use quant_execution.Matching.Refresher.{Refresher}
use quant_execution.Positions.{find}
use quant_execution.Repository.Trades.{
  Table, get, list_by_statuses, update_rows, insert_row, has_id, apply_update,
  exists_by_idempotency_key,
}
use quant_execution.Repository.Writer.{
  Writer, Event, put, take_batch, apply_all, apply_task, run, finish, enqueue, happen, drain,
  collect_batch, collect_more,
}
use quant_execution.Services.Liquidator.{Liquidator}
use quant_execution.Services.TradeRows.{new_trade}
use quant_execution.Workers.Consumer.{Message}
use quant_execution.Workers.Process.{Process, on_message, Runs, here, turn, message}
use quant_execution.Workers.Process.Restart.{restarted}
use quant_execution.Workers.Recovery.Rebuilt.{IsRestorable}
use quant_execution.Workers.Recovery.Restarts.{restart_recovers}
use quant_execution.Workers.Recovery.Shutdown.{stop_and_restart}
use quant_execution.Tests.Data.{
  tick, provenance, signal, paper_service, filled_answers, empty_world, base, row, ten_shares,
  thousand,
}

-- A paper trade of the day before and a live one.
abbrev pub held_rows : Table
held_rows =
    row 3 (codes "paper:AAPL::2024-10-03") filled none
    ∷ record (row 2 (codes "live:AAPL::2024-10-03") filled none) {
      execution_mode = live;
      is_paper = false;
      cash_hold_id = some 5;
    }
    ∷ []

abbrev pub watching : Refresher
watching = record {
  store = record { tolerance = pos 0; by_symbol = (tick.symbol, signal ∷ []) ∷ [] };
  open_time = none;
  last_run = none;
}

abbrev closing : Liquidator
closing = record { close_time = none; last_run = none }

abbrev started : Table → Process
started rows = restarted paper_service (some rows) watching closing empty_world

abbrev pub bought : Message
bought = record { value = some (codes "{}"); meta = provenance }

-- A tick that buys.
abbrev ticked : Process
ticked =
    on_message (λ v. some tick) paper_service 20000 (λ n. filled_answers) bought (started held_rows)

one_tick : Runs (λ v. some tick) paper_service (started held_rows) ticked
one_tick = turn (here _) (message 20000 (λ n. filled_answers) bought (started held_rows))

abbrev bought_row : Trade
bought_row = new_trade paper_service filled_answers tick signal provenance base ten_shares thousand

abbrev fill : List Change
fill =
    Change.status filled
    ∷ Change.filled_quantity (some ten_shares)
    ∷ Change.filled_avg_price (some tick.price)
    ∷ Change.filled_at filled_answers.now
    ∷ []

abbrev written : List Task
written = Task.insert bought_row ∷ Task.update 1 fill ∷ []

ticked-tasks : ticked.world.tasks ≡ written
unfolding on_message process_message is_trading_day weekday process_tick record_price execute_each
    match_entries lookup text_eq ◌+ℤ◌ execute claim_key contains_text rehydrate_positions rebuild
    seed list_by_statuses insert ◌*ℤ◌ ◌-ℤ◌ insert_with sort_with is_zero entry_side is_opened
    mode_value entry_matches claim_exits claim_in exit_triggered open_position check_exits claim
    enter fill_paper submit_exits take_key add_key all_digits attempt_of build_idempotency_key civil
    compose_key isdigit isoformat rpartition_r split_attempt is_rehydrated position_from_trade
    rehydrated_state compute_sizing divide_down shares_sized open_all new_trade is_paper_mode
ticked-tasks = refl

abbrev next_rows : Table
next_rows = held_rows ++ apply_changes fill bought_row ∷ []

applied : apply_all written held_rows ≡ some next_rows
unfolding apply_all apply_task insert_row has_id exists_by_idempotency_key apply_update update_rows
    text_eq apply_changes new_trade
applied = refl

pub restorable : IsRestorable held_rows
unfolding is_rehydrated has_id get text_eq
restorable = record {
  ids = (refl, (refl, tt));
  fits = omega arith;
  only = λ i t found asked. ground arith;
}

restart_recovers_example :
    ((s : Text) (i : ℕ) → find s i (started next_rows).world.book ≡ find s i ticked.world.book)
    × IsRestorable next_rows
unfolding is_paper_mode is_rehydrated
restart_recovers_example =
    restart_recovers (λ v. some tick) paper_service refl watching closing empty_world refl refl
      held_rows restorable next_rows one_tick
      (ap (λ ts. apply_all ts held_rows) ticked-tasks ∙ applied)
      (unfold new_trade apply_changes in omega arith)

abbrev writer : Writer
writer = record { batch_size = 1; queue_size = 10; queue = []; rows = held_rows }

abbrev events : List Event
events = put (Task.insert bought_row) ∷ take_batch true ∷ put (Task.update 1 fill) ∷ []

stop_and_restart_example :
    let left = (finish true (run events writer)).rows in
    ((s : Text) (i : ℕ) → find s i (started left).world.book ≡ find s i ticked.world.book)
    × IsRestorable left
unfolding is_paper_mode is_rehydrated run happen enqueue drain collect_batch collect_more
stop_and_restart_example =
    stop_and_restart (λ v. some tick) paper_service refl watching closing empty_world refl refl
      writer refl (omega arith) restorable events next_rows one_tick (sym ticked-tasks)
      (omega arith) (refl, tt) (ap (λ ts. apply_all ts held_rows) ticked-tasks ∙ applied)
      (omega arith) (unfold new_trade apply_changes in omega arith)
