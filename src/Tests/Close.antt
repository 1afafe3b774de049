-- ===== src/Tests/Close.antt =====
-- A paper process at the market's close at concrete inputs.
use quant_execution.Base.{◌≡◌, refl, some, none, []}
use quant_execution.Positions.{book_len}
use quant_execution.Services.Liquidator.{Liquidator, maybe_liquidate}
use quant_execution.Services.World.{ok}
use quant_execution.Tests.Data.{
  tick, paper_service, filled_answers, empty_world, at_sixteen, afternoon,
}
use quant_execution.Domain.Clock.{has_reached}
use quant_execution.Domain.Enums.{is_paper_mode}
use quant_execution.Tests.Recovery.{held_rows, watching, bought, restorable}
use quant_execution.Workers.Process.{Process, on_message, on_close_check, here, turn, message}
use quant_execution.Workers.Process.Restart.{restarted}
use quant_execution.Workers.Recovery.Close.{close_empties}

abbrev armed_liquidator : Liquidator
armed_liquidator = record { close_time = some at_sixteen; last_run = none }

abbrev opened_process : Process
opened_process = restarted paper_service (some held_rows) watching armed_liquidator empty_world

-- A process that has bought, with a position of the day before.
abbrev loaded : Process
loaded = on_message (λ v. some tick) paper_service 20000 (λ n. filled_answers) bought opened_process

close_empties_example :
    ((on_close_check afternoon filled_answers loaded).world.book ≡ [])
    × ((maybe_liquidate afternoon filled_answers loaded.liquidator loaded.world).1
        ≡ ok (book_len loaded.world.book))
unfolding is_paper_mode on_message has_reached
close_empties_example =
    close_empties (λ v. some tick) paper_service refl watching armed_liquidator empty_world refl
      refl held_rows restorable at_sixteen refl afternoon filled_answers
      (turn (here _) (message 20000 (λ n. filled_answers) bought opened_process)) refl refl
