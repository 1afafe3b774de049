-- ===== src/Config.antt =====
-- src/quant_execution/config.py: the settings that pydantic reads from the environment. `Reader` is
-- pydantic's reading of a number, `none` where it is not valid; an `Env` gives the value of a
-- variable by its name, which pydantic looks up without regard to case.
pub mod Ready
use quant_execution.Base.{
  ℕ, ◌-◌, Text, ◌≡◌, refl, Bool, ◌&&◌, Option, none, some, List, [], ◌∷◌, ◌++◌, if◌then◌else◌, leb,
  codes, map, upper,
}
use quant_execution.Base.Int.{ℤ, pos}
use quant_execution.Domain.Decimal.{Decimal}
use quant_execution.Workers.Startup

abbrev pub Env : Type 0
Env = Text → Option Text

pub record Reader : Type 0 where
  pub int : Text → Option ℤ
  pub float : Text → Option Decimal
  pub optional_float : Text → Option (Option Decimal)

-- `env_prefix="EXEC_"`, before the field's name.
unfoldable pub variable : Text → Text
unfolding upper
variable field = codes "EXEC_" ++ upper field

-- The value that is set, an empty one too, or the default.
abbrev pub or_default : Text → Option Text → Text
or_default value none = value
or_default value (some given) = given

unfoldable pub text_setting : Text → Text → Env → Text
text_setting field value env = or_default value (env (variable field))

abbrev read_or : {A : Type 0} → (Text → Option A) → A → Option Text → Option A
read_or read value none = some value
read_or read value (some given) = read given

unfoldable pub number_setting : {A : Type 0} → (Text → Option A) → Text → A → Env → Option A
number_setting read field value env = read_or read value (env (variable field))

-- The fields of type `str`, but for the URL of the database.
pub record Texts : Type 0 where
  pub api_listen_address : Text
  pub db_schema : Text
  pub log_level : Text
  pub kafka_bootstrap_servers : Text
  pub kafka_topic_paper : Text
  pub kafka_topic_live : Text
  pub kafka_group_prefix : Text
  pub watchlist_api_url : Text
  pub cash_api_url : Text
  pub cash_account_id : Text
  pub alpaca_base_url : Text
  pub alpaca_api_key : Text
  pub alpaca_api_secret : Text
  pub market_timezone : Text
  pub market_open_paper : Text
  pub market_open_live : Text
  pub market_close_paper : Text
  pub market_close_live : Text

unfoldable pub read_texts : Env → Texts
unfolding text_setting
read_texts env = record {
  api_listen_address = or_default (codes "0.0.0.0") (env (codes "API_LISTEN_ADDRESS"));
  db_schema = text_setting (codes "db_schema") (codes "execution") env;
  log_level = text_setting (codes "log_level") (codes "INFO") env;
  kafka_bootstrap_servers = text_setting (codes "kafka_bootstrap_servers") [] env;
  kafka_topic_paper = text_setting (codes "kafka_topic_paper") (codes "ticks.paper") env;
  kafka_topic_live = text_setting (codes "kafka_topic_live") (codes "ticks.live") env;
  kafka_group_prefix = text_setting (codes "kafka_group_prefix") (codes "quant-execution") env;
  watchlist_api_url = text_setting (codes "watchlist_api_url") [] env;
  cash_api_url = text_setting (codes "cash_api_url") [] env;
  cash_account_id = text_setting (codes "cash_account_id") [] env;
  alpaca_base_url =
      text_setting (codes "alpaca_base_url") (codes "https://paper-api.alpaca.markets") env;
  alpaca_api_key = text_setting (codes "alpaca_api_key") [] env;
  alpaca_api_secret = text_setting (codes "alpaca_api_secret") [] env;
  market_timezone = text_setting (codes "market_timezone") (codes "America/New_York") env;
  market_open_paper = text_setting (codes "market_open_paper") [] env;
  market_open_live = text_setting (codes "market_open_live") [] env;
  market_close_paper = text_setting (codes "market_close_paper") [] env;
  market_close_live = text_setting (codes "market_close_live") [] env;
}

-- The fields of type `int`, `float` and `float | None`.
pub record Numbers : Type 0 where
  pub api_port : ℤ
  pub db_pool_size : ℤ
  pub db_max_overflow : ℤ
  pub watchlist_refresh_seconds : ℤ
  pub order_notional_usd : Option Decimal
  pub order_quantity : Option Decimal
  pub price_match_tolerance : Decimal
  pub alpaca_poll_seconds : ℤ
  pub market_open_lead_minutes_paper : ℤ
  pub market_open_lead_minutes_live : ℤ
  pub market_close_lead_minutes_paper : ℤ
  pub market_close_lead_minutes_live : ℤ
  pub market_close_check_seconds : ℤ
  pub pnl_report_check_seconds : ℤ
  pub db_writer_batch_size : ℤ
  pub db_writer_queue_size : ℤ

infixl 5 ◌>>=◌
abbrev ◌>>=◌ : {A B : Type 0} → Option A → (A → Option B) → Option B
none >>= f = none
some a >>= f = f a

-- The numbers, if all are valid.
unfoldable pub read_numbers : Reader → Env → Option Numbers
unfolding number_setting
read_numbers rd env = do
  port ← read_or rd.int (pos 8000) (env (codes "API_PORT"))
  pool ← number_setting rd.int (codes "db_pool_size") (pos 5) env
  overflow ← number_setting rd.int (codes "db_max_overflow") (pos 10) env
  refresh ← number_setting rd.int (codes "watchlist_refresh_seconds") (pos 60) env
  notional ←
      number_setting rd.optional_float (codes "order_notional_usd") (some (pos 100000000000)) env
  quantity ← number_setting rd.optional_float (codes "order_quantity") none env
  tolerance ← number_setting rd.float (codes "price_match_tolerance") (pos 0) env
  poll ← number_setting rd.int (codes "alpaca_poll_seconds") (pos 5) env
  open_paper ← number_setting rd.int (codes "market_open_lead_minutes_paper") (pos 15) env
  open_live ← number_setting rd.int (codes "market_open_lead_minutes_live") (pos 15) env
  close_paper ← number_setting rd.int (codes "market_close_lead_minutes_paper") (pos 15) env
  close_live ← number_setting rd.int (codes "market_close_lead_minutes_live") (pos 15) env
  close_check ← number_setting rd.int (codes "market_close_check_seconds") (pos 30) env
  report_check ← number_setting rd.int (codes "pnl_report_check_seconds") (pos 900) env
  batch ← number_setting rd.int (codes "db_writer_batch_size") (pos 200) env
  queue ← number_setting rd.int (codes "db_writer_queue_size") (pos 100000) env
  some (record {
    api_port = port;
    db_pool_size = pool;
    db_max_overflow = overflow;
    watchlist_refresh_seconds = refresh;
    order_notional_usd = notional;
    order_quantity = quantity;
    price_match_tolerance = tolerance;
    alpaca_poll_seconds = poll;
    market_open_lead_minutes_paper = open_paper;
    market_open_lead_minutes_live = open_live;
    market_close_lead_minutes_paper = close_paper;
    market_close_lead_minutes_live = close_live;
    market_close_check_seconds = close_check;
    pnl_report_check_seconds = report_check;
    db_writer_batch_size = batch;
    db_writer_queue_size = queue;
  })

pub record Settings : Type 0 where
  pub database_url : Text
  pub texts : Texts
  pub numbers : Numbers

abbrev pub with_numbers : Text → Texts → Option Numbers → Option Settings
with_numbers url texts none = none
with_numbers url texts (some numbers) =
    some (record { database_url = url; texts = texts; numbers = numbers })

abbrev pub with_url : Option Text → Texts → Option Numbers → Option Settings
with_url none texts numbers = none
with_url (some url) texts numbers = with_numbers url texts numbers

-- `Settings()`: `none` where a field is not valid, or the required one is not set.
unfoldable pub read_settings : Reader → Env → Option Settings
unfolding read_texts read_numbers
read_settings rd env = with_url (env (codes "DATABASE_URL")) (read_texts env) (read_numbers rd env)

-- The settings that the workers read.
unfoldable pub worker_settings : Settings → Startup.Settings
worker_settings s = record {
  paper_settings = record {
    market_open = s.texts.market_open_paper;
    market_open_lead_minutes = s.numbers.market_open_lead_minutes_paper;
    market_close = s.texts.market_close_paper;
    market_close_lead_minutes = s.numbers.market_close_lead_minutes_paper;
    kafka_topic = s.texts.kafka_topic_paper;
  };
  live_settings = record {
    market_open = s.texts.market_open_live;
    market_open_lead_minutes = s.numbers.market_open_lead_minutes_live;
    market_close = s.texts.market_close_live;
    market_close_lead_minutes = s.numbers.market_close_lead_minutes_live;
    kafka_topic = s.texts.kafka_topic_live;
  };
  kafka_bootstrap_servers = s.texts.kafka_bootstrap_servers;
  kafka_group_prefix = s.texts.kafka_group_prefix;
  db_writer_batch_size = s.numbers.db_writer_batch_size;
  db_writer_queue_size = s.numbers.db_writer_queue_size;
  alpaca_poll_seconds = s.numbers.alpaca_poll_seconds;
}
