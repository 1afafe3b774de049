-- ===== src/Migrations/Versions.antt =====
-- alembic/versions: the three migrations as the operations that they call, and the columns that
-- repository/models.py declares. What an operation does to a database is not part of the program.
pub mod Restore
pub mod Columns
use quant_execution.Base.{Text, Bool, true, false, Option, none, some, List, [], ◌∷◌, ◌++◌, codes}

-- A column by its SQL type; `stamped` is `server_default=now()`, `client_default` is the `default`
-- that SQLAlchemy fills in at an insert, and `restamped` is `onupdate=now()`.
pub record Column : Type 0 where
  pub name : Text
  pub sql_type : Text
  pub nullable : Bool
  pub stamped : Bool
  pub client_default : Option Text
  pub restamped : Bool

abbrev pub required : Text → Text → Column
required name type = record {
  name = name;
  sql_type = type;
  nullable = false;
  stamped = false;
  client_default = none;
  restamped = false;
}

abbrev pub optional : Text → Text → Column
optional name type = record {
  name = name;
  sql_type = type;
  nullable = true;
  stamped = false;
  client_default = none;
  restamped = false;
}

abbrev pub stamp : Text → Column
stamp name = record {
  name = name;
  sql_type = codes "TIMESTAMP WITH TIME ZONE";
  nullable = false;
  stamped = true;
  client_default = none;
  restamped = false;
}

-- The operations of `op` that an upgrade calls. `create_table` has the columns of the primary key
-- and of each unique constraint, `create_index` whether it is unique.
pub data Upgrade : Type 0 where
  create_table : Text → List Column → List Text → List (Text × List Text) → Upgrade
  create_index : Text → Text → List Text → Bool → Upgrade
  add_column : Text → Column → Upgrade

-- Those that a downgrade calls.
pub data Downgrade : Type 0 where
  drop_table : Text → Downgrade
  drop_index : Text → Text → Downgrade
  drop_column : Text → Text → Downgrade

pub data Version : Type 0 where
  create_trades add_exit_columns create_daily_pnl : Version

-- `down_revision`
unfoldable pub down_revision : Version → Option Version
down_revision create_trades = none
down_revision add_exit_columns = some create_trades
down_revision create_daily_pnl = some add_exit_columns

abbrev trades : Text
trades = codes "trades"

abbrev daily_pnl : Text
daily_pnl = codes "daily_pnl"

abbrev index_on : Text → Text → Text → Upgrade
index_on name table column = create_index name table (column ∷ []) false

abbrev pub first_trade_columns : List Column
first_trade_columns =
    required (codes "id") (codes "UUID")
    ∷ required (codes "execution_mode") (codes "VARCHAR(8)")
    ∷ required (codes "is_paper") (codes "BOOLEAN")
    ∷ required (codes "symbol") (codes "VARCHAR(16)")
    ∷ required (codes "side") (codes "VARCHAR(8)")
    ∷ required (codes "position_type") (codes "VARCHAR(8)")
    ∷ required (codes "target_buy_price") (codes "NUMERIC(20, 8)")
    ∷ required (codes "trigger_price") (codes "NUMERIC(20, 8)")
    ∷ required (codes "quantity") (codes "NUMERIC(20, 8)")
    ∷ required (codes "notional") (codes "NUMERIC(20, 8)")
    ∷ required (codes "currency") (codes "CHAR(3)")
    ∷ required (codes "status") (codes "VARCHAR(24)")
    ∷ required (codes "broker") (codes "VARCHAR(16)")
    ∷ optional (codes "broker_order_id") (codes "VARCHAR(64)")
    ∷ optional (codes "filled_quantity") (codes "NUMERIC(20, 8)")
    ∷ optional (codes "filled_avg_price") (codes "NUMERIC(20, 8)")
    ∷ optional (codes "cash_hold_id") (codes "UUID")
    ∷ optional (codes "source_query_id") (codes "VARCHAR(64)")
    ∷ optional (codes "trigger_reason") (codes "VARCHAR(255)")
    ∷ required (codes "idempotency_key") (codes "VARCHAR(200)")
    ∷ optional (codes "kafka_topic") (codes "VARCHAR(128)")
    ∷ optional (codes "kafka_partition") (codes "INTEGER")
    ∷ optional (codes "kafka_offset") (codes "BIGINT")
    ∷ optional (codes "error_code") (codes "VARCHAR(64)")
    ∷ optional (codes "error_detail") (codes "TEXT")
    ∷ stamp (codes "created_at")
    ∷ optional (codes "submitted_at") (codes "TIMESTAMP WITH TIME ZONE")
    ∷ optional (codes "filled_at") (codes "TIMESTAMP WITH TIME ZONE")
    ∷ stamp (codes "updated_at")
    ∷ []

abbrev pub exit_columns : List Column
exit_columns =
    optional (codes "target_sell_price") (codes "NUMERIC(20, 8)")
    ∷ optional (codes "exit_broker_order_id") (codes "VARCHAR(64)")
    ∷ optional (codes "exit_filled_quantity") (codes "NUMERIC(20, 8)")
    ∷ optional (codes "exit_filled_avg_price") (codes "NUMERIC(20, 8)")
    ∷ optional (codes "exit_reason") (codes "VARCHAR(16)")
    ∷ optional (codes "exit_submitted_at") (codes "TIMESTAMP WITH TIME ZONE")
    ∷ optional (codes "closed_at") (codes "TIMESTAMP WITH TIME ZONE")
    ∷ []

abbrev pub pnl_columns : List Column
pnl_columns =
    required (codes "id") (codes "UUID")
    ∷ required (codes "trade_date") (codes "DATE")
    ∷ required (codes "execution_mode") (codes "VARCHAR(8)")
    ∷ required (codes "is_paper") (codes "BOOLEAN")
    ∷ required (codes "total_trades") (codes "INTEGER")
    ∷ required (codes "winning_trades") (codes "INTEGER")
    ∷ required (codes "losing_trades") (codes "INTEGER")
    ∷ required (codes "breakeven_trades") (codes "INTEGER")
    ∷ required (codes "symbols_traded") (codes "INTEGER")
    ∷ required (codes "realized_pnl") (codes "NUMERIC(20, 8)")
    ∷ required (codes "amount_invested") (codes "NUMERIC(20, 8)")
    ∷ required (codes "gross_proceeds") (codes "NUMERIC(20, 8)")
    ∷ required (codes "win_rate") (codes "NUMERIC(20, 8)")
    ∷ required (codes "return_pct") (codes "NUMERIC(20, 8)")
    ∷ required (codes "average_win") (codes "NUMERIC(20, 8)")
    ∷ required (codes "average_loss") (codes "NUMERIC(20, 8)")
    ∷ required (codes "largest_win") (codes "NUMERIC(20, 8)")
    ∷ required (codes "largest_loss") (codes "NUMERIC(20, 8)")
    ∷ required (codes "currency") (codes "CHAR(3)")
    ∷ stamp (codes "created_at")
    ∷ stamp (codes "updated_at")
    ∷ []

abbrev add_all : Text → List Column → List Upgrade
add_all table [] = []
add_all table (c ∷ cs) = add_column table c ∷ add_all table cs

-- `upgrade` of each version.
unfoldable pub upgrade : Version → List Upgrade
upgrade create_trades =
    create_table trades first_trade_columns (codes "id" ∷ []) []
    ∷ index_on (codes "idx_trades_symbol") trades (codes "symbol")
    ∷ index_on (codes "idx_trades_status") trades (codes "status")
    ∷ index_on (codes "idx_trades_is_paper") trades (codes "is_paper")
    ∷ index_on (codes "idx_trades_created_at") trades (codes "created_at")
    ∷ create_index (codes "uq_trades_idempotency_key") trades (codes "idempotency_key" ∷ []) true
    ∷ []
upgrade add_exit_columns = add_all trades exit_columns
upgrade create_daily_pnl =
    create_table daily_pnl pnl_columns (codes "id" ∷ [])
      ((codes "uq_daily_pnl_date_mode", codes "trade_date" ∷ codes "is_paper" ∷ []) ∷ [])
    ∷ index_on (codes "idx_daily_pnl_trade_date") daily_pnl (codes "trade_date")
    ∷ index_on (codes "idx_daily_pnl_is_paper") daily_pnl (codes "is_paper")
    ∷ []

-- `downgrade` of each version.
unfoldable pub downgrade : Version → List Downgrade
downgrade create_trades =
    drop_index (codes "uq_trades_idempotency_key") trades
    ∷ drop_index (codes "idx_trades_created_at") trades
    ∷ drop_index (codes "idx_trades_is_paper") trades
    ∷ drop_index (codes "idx_trades_status") trades
    ∷ drop_index (codes "idx_trades_symbol") trades
    ∷ drop_table trades
    ∷ []
downgrade add_exit_columns =
    drop_column trades (codes "closed_at")
    ∷ drop_column trades (codes "exit_submitted_at")
    ∷ drop_column trades (codes "exit_reason")
    ∷ drop_column trades (codes "exit_filled_avg_price")
    ∷ drop_column trades (codes "exit_filled_quantity")
    ∷ drop_column trades (codes "exit_broker_order_id")
    ∷ drop_column trades (codes "target_sell_price")
    ∷ []
downgrade create_daily_pnl =
    drop_index (codes "idx_daily_pnl_is_paper") daily_pnl
    ∷ drop_index (codes "idx_daily_pnl_trade_date") daily_pnl
    ∷ drop_table daily_pnl
    ∷ []
