-- ===== src/Tests/Environment.antt =====
-- The settings of src/quant_execution/config.py from a concrete environment.
use quant_execution.Base.{Text, none, some, [], ◌∷◌, codes, text_keys}
use quant_execution.Base.Dict.{Dict, lookup}
use quant_execution.Base.Int.{pos}
use quant_execution.Config.{Env, Reader, Numbers, Settings, read_texts}
use quant_execution.Services.CloseTime.{parse_int}

abbrev given : Dict Text Text
given =
    (codes "DATABASE_URL", codes "postgresql://db")
    ∷ (codes "API_PORT", codes "9000")
    ∷ (codes "EXEC_WATCHLIST_API_URL", codes "http://watchlist")
    ∷ (codes "EXEC_ALPACA_API_KEY", codes "key")
    ∷ (codes "EXEC_ALPACA_API_SECRET", codes "secret")
    ∷ (codes "EXEC_CASH_API_URL", codes "http://cash")
    ∷ (codes "EXEC_CASH_ACCOUNT_ID", codes "1")
    ∷ (codes "EXEC_MARKET_CLOSE_PAPER", codes "16:00")
    ∷ (codes "EXEC_MARKET_CLOSE_LIVE", codes "16:00")
    ∷ []

abbrev environment : Env
environment name = lookup name given

-- Numbers are integers here.
abbrev reader : Reader
reader = record { int = parse_int; float = λ t. none; optional_float = λ t. none }

abbrev numbers_read : Numbers
numbers_read = record {
  api_port = pos 9000;
  db_pool_size = pos 5;
  db_max_overflow = pos 10;
  watchlist_refresh_seconds = pos 60;
  order_notional_usd = some (pos 100000000000);
  order_quantity = none;
  price_match_tolerance = pos 0;
  alpaca_poll_seconds = pos 5;
  market_open_lead_minutes_paper = pos 15;
  market_open_lead_minutes_live = pos 15;
  market_close_lead_minutes_paper = pos 15;
  market_close_lead_minutes_live = pos 15;
  market_close_check_seconds = pos 30;
  pnl_report_check_seconds = pos 900;
  db_writer_batch_size = pos 200;
  db_writer_queue_size = pos 100000;
}

abbrev settings_read : Settings
settings_read = record {
  database_url = codes "postgresql://db";
  texts = read_texts environment;
  numbers = numbers_read;
}
