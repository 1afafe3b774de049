-- ===== src/Workers/Startup.antt =====
-- `main` of src/quant_execution/workers/executor.py and of workers/pnl_reporter.py: what they start,
-- in order, from the settings of src/quant_execution/config.py. Threads, Kafka and the constructors
-- are not run here: an `Action` names what is started, with what it is given.
pub mod Order
use quant_execution.Base.{
  ℕ, Text, Bool, true, false, Option, none, some, List, [], ◌∷◌, ◌++◌, codes,
}
use quant_execution.Base.Int.{ℤ}
use quant_execution.Domain.Clock.{ClockTime}
use quant_execution.Domain.Enums.{ExecutionMode, paper, live, mode_value}
use quant_execution.Workers.Consumer.{ConsumerSettings, create_consumer, subscribed}
use quant_execution.Services.CloseTime.{
  CloseTime, disabled, at, configuration_error, parse_close_time, shift_earlier,
}

-- The settings that one mode reads.
pub record ModeSettings : Type 0 where
  pub market_open : Text
  pub market_open_lead_minutes : ℤ
  pub market_close : Text
  pub market_close_lead_minutes : ℤ
  pub kafka_topic : Text

pub record Settings : Type 0 where
  pub paper_settings : ModeSettings
  pub live_settings : ModeSettings
  pub kafka_bootstrap_servers : Text
  pub kafka_group_prefix : Text
  pub db_writer_batch_size : ℤ
  pub db_writer_queue_size : ℤ
  pub alpaca_poll_seconds : ℤ

-- `settings.…_paper if mode.is_paper else settings.…_live`
unfoldable pub settings_of : ExecutionMode → Settings → ModeSettings
settings_of paper s = s.paper_settings
settings_of live s = s.live_settings

pub data Action : Type 0 where
  create_cash_client : Action
  wait_for_table : Text → Action
  rehydrate : ExecutionMode → Action
  start_writer : ℤ → ℤ → Action
  start_refresher : Option ClockTime → Action
  start_reconciler : ℤ → Action
  start_liquidator : Option ClockTime → Action
  consume : ConsumerSettings → List Text → Action
  report : List (ExecutionMode × Option ClockTime) → Action

-- `shift_earlier(parse_close_time(raw), lead)`; `none` is the `ConfigurationError`.
unfoldable pub trigger : CloseTime → ℤ → Option (Option ClockTime)
trigger configuration_error lead = none
trigger disabled lead = some (shift_earlier none lead)
trigger (at t) lead = some (shift_earlier (some t) lead)

unfoldable pub open_trigger : ExecutionMode → Settings → Option (Option ClockTime)
open_trigger mode s =
    let m = settings_of mode s in
    trigger (parse_close_time m.market_open) m.market_open_lead_minutes

unfoldable pub close_trigger : ExecutionMode → Settings → Option (Option ClockTime)
close_trigger mode s =
    let m = settings_of mode s in
    trigger (parse_close_time m.market_close) m.market_close_lead_minutes

abbrev pub cash_client : ExecutionMode → List Action
cash_client paper = []
cash_client live = create_cash_client ∷ []

abbrev pub reconciler : ExecutionMode → Settings → List Action
reconciler paper s = []
reconciler live s = start_reconciler s.alpaca_poll_seconds ∷ []

-- From the close time on: the actions, and whether the process came to consume.
abbrev pub armed : ExecutionMode → Settings → Option (Option ClockTime) → List Action × Bool
armed mode s none = ([], false)
armed mode s (some close) = (
  start_liquidator close
      ∷ consume
          (create_consumer s.kafka_bootstrap_servers
            (s.kafka_group_prefix ++ (codes "." ++ mode_value mode)))
          (subscribed (settings_of mode s).kafka_topic)
      ∷ [],
  true,
)

abbrev pub opened_at :
    ExecutionMode → Settings → Option (Option ClockTime) → List Action × Bool → List Action × Bool
opened_at mode s none rest = ([], false)
opened_at mode s (some opens) rest = (
  cash_client mode
      ++ (wait_for_table (codes "trades")
          ∷ rehydrate mode
          ∷ start_writer s.db_writer_batch_size s.db_writer_queue_size
          ∷ start_refresher opens
          ∷ (reconciler mode s ++ rest.0)),
  rest.1,
)

-- `main` of the executor.
unfoldable pub main : ExecutionMode → Settings → List Action × Bool
main mode s = opened_at mode s (open_trigger mode s) (armed mode s (close_trigger mode s))

abbrev pub scheduled : CloseTime → Option (Option ClockTime)
scheduled configuration_error = none
scheduled disabled = some none
scheduled (at t) = some (some t)

abbrev pub both_modes :
    Option (Option ClockTime)
    → Option (Option ClockTime)
    → Option (List (ExecutionMode × Option ClockTime))
both_modes (some p) (some l) = some ((paper, p) ∷ (live, l) ∷ [])
both_modes _ _ = none

-- The schedule of `main` of the P&L reporter; `none` is the `ConfigurationError`.
unfoldable pub report_schedule : Settings → Option (List (ExecutionMode × Option ClockTime))
report_schedule s =
    both_modes (scheduled (parse_close_time s.paper_settings.market_close))
      (scheduled (parse_close_time s.live_settings.market_close))

abbrev pub reporting : Option (List (ExecutionMode × Option ClockTime)) → List Action × Bool
reporting none = ([], false)
reporting (some schedule) = (wait_for_table (codes "daily_pnl") ∷ report schedule ∷ [], true)

-- `main` of the P&L reporter: the actions, and whether the process came to report.
unfoldable pub report_main : Settings → List Action × Bool
unfolding report_schedule
report_main s = reporting (report_schedule s)
