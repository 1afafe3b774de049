-- ===== src/Tests/Processes.antt =====
-- Executor processes, their schedules and their start at concrete inputs.
use quant_execution.Base.{◌≡◌, refl, arith, codes, true, false, none, some, [], ◌∷◌, ◌++◌}
use quant_execution.Base.Int.{pos}
use quant_execution.Domain.Clock.{ClockTime, Moment, has_reached}
use quant_execution.Domain.Enums.{live, filled, market_close, opened, is_paper_mode}
use quant_execution.Matching.Refresher.{Refresher}
use quant_execution.Positions.Invariant.{IsWellFormed}
use quant_execution.Repository.Trades.{Table}
use quant_execution.Services.CloseTime.{
  parse_close_time, split_colon, parse_int, skip_spaces, int_digits,
}
use quant_execution.Services.Execution.{liquidate_all}
use quant_execution.Services.Liquidator.{Liquidator}
use quant_execution.Services.Liquidator.Loop.{WakeUp, wake_ups, others, ran_on, wake_ups_once}
use quant_execution.Services.World.{Service}
use quant_execution.Workers.Consumer.{Message}
use quant_execution.Workers.Process.{
  Process, on_message, on_close_check, on_reconcile, Runs, here, turn, message, reconcile,
}
use quant_execution.Workers.Process.Restart.{restarted, restarted-IsWellFormed}
use quant_execution.Workers.Startup.{ModeSettings, Settings, settings_of, close_trigger}
use quant_execution.Workers.Startup.Order.{liquidation_before_report}
use quant_execution.Tests.Data.{
  tick, provenance, signal, paper_service, live_service, filled_answers, empty_world, at_sixteen,
  afternoon, world_of, book_of, position, base, row,
}

abbrev closing : Liquidator
closing = record { close_time = some at_sixteen; last_run = none }

-- A paper trade and a live one that are filled.
abbrev held_rows : Table
held_rows =
    row 1 base filled none
    ∷ record (row 2 (codes "live:AAPL::2024-10-03") filled none) {
      execution_mode = live;
      is_paper = false;
      cash_hold_id = some 5;
    }
    ∷ []

abbrev watching : Refresher
watching = record {
  store = record { tolerance = pos 0; by_symbol = (tick.symbol, signal ∷ []) ∷ [] };
  open_time = none;
  last_run = none;
}

abbrev started : Service → Process
started sv = restarted sv (some held_rows) watching closing empty_world

abbrev bought : Message
bought = record { value = some (codes "{}"); meta = provenance }

-- A tick, and then the close.
abbrev ticked : Process
ticked =
    on_message (λ v. some tick) paper_service 20000 (λ n. filled_answers) bought
      (started paper_service)

abbrev closed_out : Process
closed_out = on_close_check afternoon filled_answers ticked

-- In live mode the tick orders, and a reconciliation follows.
abbrev ordered : Process
ordered =
    on_message (λ v. some tick) live_service 20000 (λ n. filled_answers) bought
      (started live_service)

abbrev reconciled : Process
reconciled = on_reconcile filled_answers ordered

live_day : Runs (λ v. some tick) live_service (started live_service) reconciled
unfolding is_paper_mode
live_day =
    turn (turn (here _) (message 20000 (λ n. filled_answers) bought (started live_service)))
      (reconcile filled_answers ordered refl)

restarted-IsWellFormed_example : IsWellFormed reconciled.world.book
restarted-IsWellFormed_example =
    restarted-IsWellFormed (λ v. some tick) live_service (some held_rows) watching closing
      empty_world (record { keys = tt; buckets = tt }) live_day

-- One check before the close and two after it.
abbrev wake_up : Moment → WakeUp
wake_up now = record { meanwhile = λ w. w; now = now; ans = filled_answers }

abbrev morning : Moment
morning = record {
  day = 20000;
  time = record { hour = 10; minute = 0; second = 0; microsecond = 0 };
}

abbrev holding : Process
holding = record {
  world = world_of (book_of (position true opened));
  refresher = watching;
  liquidator = closing;
}

wake_ups_once_example :
    wake_ups
      ((wake_up morning ∷ []) ++ wake_up afternoon ∷ wake_up afternoon ∷ [])
      (closing, holding.world)
    ≡ (
      ran_on 20000 closing,
      others (wake_up afternoon ∷ []) (
          (liquidate_all filled_answers market_close
            (others (wake_up morning ∷ []) holding.world)).1),
    )
wake_ups_once_example =
    wake_ups_once closing at_sixteen (wake_up morning ∷ []) (wake_up afternoon ∷ [])
      (wake_up afternoon) holding.world refl (refl, tt) refl refl (refl, tt)

abbrev one_mode : ModeSettings
one_mode = record {
  market_open = codes "09:30";
  market_open_lead_minutes = pos 15;
  market_close = codes "16:00";
  market_close_lead_minutes = pos 15;
  kafka_topic = codes "ticks";
}

abbrev configured : Settings
configured = record {
  paper_settings = one_mode;
  live_settings = one_mode;
  kafka_bootstrap_servers = codes "kafka:9092";
  kafka_group_prefix = codes "quant-execution";
  db_writer_batch_size = pos 200;
  db_writer_queue_size = pos 100000;
  alpaca_poll_seconds = pos 5;
}

liquidation_before_report_example :
    (t : ClockTime) × (close_trigger live configured ≡ some (some t))
    × (has_reached afternoon t ≡ true)
unfolding settings_of parse_close_time split_colon parse_int skip_spaces int_digits
liquidation_before_report_example =
    liquidation_before_report live configured at_sixteen 15 afternoon refl refl (omega arith) refl
