-- ===== src/Tests/Threads.antt =====
-- Turns of a live process of src/quant_execution/workers/executor.py at concrete inputs.
use quant_execution.Base.{
  ℕ, Text, arith, true, ◌≡◌, ◌≢◌, refl, none, some, [], codes, false, text_eq, text_keys, nat_keys,
}
use quant_execution.Base.Dict.{lookup}
use quant_execution.Base.Int.{pos}
use quant_execution.Domain.Clock.{has_reached}
use quant_execution.Domain.Enums.{opened, exiting, is_opened}
use quant_execution.Domain.Records.{Position}
use quant_execution.Positions.{find, claim_all_open, claim_in, modify, modify_in}
use quant_execution.Positions.Orders.{has_order}
use quant_execution.Services.Execution.{liquidate_all, claim, submit_exits, submit_exit, exit_live}
use quant_execution.Services.Liquidator.{maybe_liquidate}
use quant_execution.Services.World.Orders.{IsSound}
use quant_execution.Tests.Data.{
  apple, live_service, filled_answers, world_of, book_of, position, at_sixteen, afternoon,
}
use quant_execution.Workers.Process.{Process, on_close_check, here, turn, close_check}
use quant_execution.Workers.Process.Orders.{exits_have_orders}

abbrev live_process : Process
live_process = record {
  world = world_of (book_of (position false opened));
  refresher = record {
    store = record { tolerance = pos 0; by_symbol = [] };
    open_time = none;
    last_run = none;
  };
  liquidator = record { close_time = some at_sixteen; last_run = none };
}

abbrev liquidated : Process
liquidated = on_close_check afternoon filled_answers live_process

abbrev being_sold : Position
being_sold = record (position false exiting) { exit_broker_order_id = some (codes "o-1") }

one_open :
    (s : Text) (i : ℕ) (p : Position)
    → find s i live_process.world.book ≡ some p
    → has_order p ≡ true
unfolding find lookup
one_open s i p found = ground arith

live_process-IsSound : IsSound live_process.world.book
unfolding lookup
live_process-IsSound = record {
  shape = record {
    keys = (refl, tt);
    buckets = (record { ids = (refl, tt); placed = ((refl, refl), tt); occupied = λ e. cc e }, tt);
  };
  orders = record { at = λ s i p found others. one_open s i p found };
}

sold : find apple 1 liquidated.world.book ≡ some being_sold
unfolding on_close_check maybe_liquidate has_reached liquidate_all claim claim_all_open claim_in
    is_opened submit_exits submit_exit exit_live modify modify_in find lookup text_eq
sold = refl

exits_have_orders_example : being_sold.exit_broker_order_id ≢ none
exits_have_orders_example =
    exits_have_orders (λ v. none) live_service
      (turn (here live_process) (close_check afternoon filled_answers live_process))
      (tt, λ s q d k e. cc e) live_process-IsSound apple 1 being_sold sold refl
