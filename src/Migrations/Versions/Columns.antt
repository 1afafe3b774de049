-- ===== src/Migrations/Versions/Columns.antt =====
-- The columns of `Trade` and `DailyPnl` of repository/models.py, and those that the migrations of
-- alembic/versions create.
use quant_execution.Base.{
  ◌≡◌, refl, subst, Option, none, some, map, Bool, true, false, ◌&&◌, ◌||◌, not, List, [], ◌∷◌,
  ◌++◌, arith, Text, codes, text_eq, text_eq_iff, if◌then◌else◌, Bool-cases, inl, inr,
}
use quant_execution.Migrations.Versions.{
  Column, required, optional, stamp, Upgrade, create_table, create_index, add_column, create_trades,
  add_exit_columns, create_daily_pnl, upgrade,
}

abbrev with_default : Text → Column → Column
with_default value c = record c { client_default = some value }

-- The column as the database has it.
abbrev pub in_database : Column → Column
in_database c = record c { client_default = none; restamped = false }

-- `Trade.__table__`
unfoldable pub trade_model : List Column
trade_model =
    with_default (codes "uuid.uuid4") (required (codes "id") (codes "UUID"))
    ∷ required (codes "execution_mode") (codes "VARCHAR(8)")
    ∷ required (codes "is_paper") (codes "BOOLEAN")
    ∷ required (codes "symbol") (codes "VARCHAR(16)")
    ∷ required (codes "side") (codes "VARCHAR(8)")
    ∷ required (codes "position_type") (codes "VARCHAR(8)")
    ∷ required (codes "target_buy_price") (codes "NUMERIC(20, 8)")
    ∷ required (codes "trigger_price") (codes "NUMERIC(20, 8)")
    ∷ required (codes "quantity") (codes "NUMERIC(20, 8)")
    ∷ required (codes "notional") (codes "NUMERIC(20, 8)")
    ∷ with_default (codes "USD") (required (codes "currency") (codes "CHAR(3)"))
    ∷ required (codes "status") (codes "VARCHAR(24)")
    ∷ required (codes "broker") (codes "VARCHAR(16)")
    ∷ optional (codes "broker_order_id") (codes "VARCHAR(64)")
    ∷ optional (codes "filled_quantity") (codes "NUMERIC(20, 8)")
    ∷ optional (codes "filled_avg_price") (codes "NUMERIC(20, 8)")
    ∷ optional (codes "target_sell_price") (codes "NUMERIC(20, 8)")
    ∷ optional (codes "exit_broker_order_id") (codes "VARCHAR(64)")
    ∷ optional (codes "exit_filled_quantity") (codes "NUMERIC(20, 8)")
    ∷ optional (codes "exit_filled_avg_price") (codes "NUMERIC(20, 8)")
    ∷ optional (codes "exit_reason") (codes "VARCHAR(16)")
    ∷ optional (codes "cash_hold_id") (codes "UUID")
    ∷ optional (codes "source_query_id") (codes "VARCHAR(64)")
    ∷ optional (codes "trigger_reason") (codes "VARCHAR(255)")
    ∷ required (codes "idempotency_key") (codes "VARCHAR(200)")
    ∷ optional (codes "kafka_topic") (codes "VARCHAR(128)")
    ∷ optional (codes "kafka_partition") (codes "INTEGER")
    ∷ optional (codes "kafka_offset") (codes "BIGINT")
    ∷ optional (codes "error_code") (codes "VARCHAR(64)")
    ∷ optional (codes "error_detail") (codes "TEXT")
    ∷ stamp (codes "created_at")
    ∷ optional (codes "submitted_at") (codes "TIMESTAMP WITH TIME ZONE")
    ∷ optional (codes "filled_at") (codes "TIMESTAMP WITH TIME ZONE")
    ∷ optional (codes "exit_submitted_at") (codes "TIMESTAMP WITH TIME ZONE")
    ∷ optional (codes "closed_at") (codes "TIMESTAMP WITH TIME ZONE")
    ∷ record (stamp (codes "updated_at")) { restamped = true }
    ∷ []

-- `DailyPnl.__table__`
unfoldable pub pnl_model : List Column
pnl_model =
    with_default (codes "uuid.uuid4") (required (codes "id") (codes "UUID"))
    ∷ required (codes "trade_date") (codes "DATE")
    ∷ required (codes "execution_mode") (codes "VARCHAR(8)")
    ∷ required (codes "is_paper") (codes "BOOLEAN")
    ∷ required (codes "total_trades") (codes "INTEGER")
    ∷ required (codes "winning_trades") (codes "INTEGER")
    ∷ required (codes "losing_trades") (codes "INTEGER")
    ∷ required (codes "breakeven_trades") (codes "INTEGER")
    ∷ required (codes "symbols_traded") (codes "INTEGER")
    ∷ required (codes "realized_pnl") (codes "NUMERIC(20, 8)")
    ∷ required (codes "amount_invested") (codes "NUMERIC(20, 8)")
    ∷ required (codes "gross_proceeds") (codes "NUMERIC(20, 8)")
    ∷ required (codes "win_rate") (codes "NUMERIC(20, 8)")
    ∷ required (codes "return_pct") (codes "NUMERIC(20, 8)")
    ∷ required (codes "average_win") (codes "NUMERIC(20, 8)")
    ∷ required (codes "average_loss") (codes "NUMERIC(20, 8)")
    ∷ required (codes "largest_win") (codes "NUMERIC(20, 8)")
    ∷ required (codes "largest_loss") (codes "NUMERIC(20, 8)")
    ∷ with_default (codes "USD") (required (codes "currency") (codes "CHAR(3)"))
    ∷ stamp (codes "created_at")
    ∷ record (stamp (codes "updated_at")) { restamped = true }
    ∷ []

-- The columns that upgrades give to a table.
unfoldable pub created : Text → List Upgrade → List Column
created table [] = []
created table (create_table name columns key uniques ∷ rest) =
    if text_eq name table then columns ++ created table rest else created table rest
created table (create_index name on columns unique ∷ rest) = created table rest
created table (add_column name column ∷ rest) =
    if text_eq name table then column ∷ created table rest else created table rest

abbrev same_default : Option Text → Option Text → Bool
same_default none none = true
same_default (some v) (some w) = text_eq v w
same_default _ _ = false

abbrev same_flag : Bool → Bool → Bool
same_flag true b = b
same_flag false b = not b

abbrev pub same_column : Column → Column → Bool
same_column c d =
    text_eq c.name d.name
    && (text_eq c.sql_type d.sql_type
        && (same_flag c.nullable d.nullable
            && (same_flag c.stamped d.stamped
                && (same_default c.client_default d.client_default
                    && same_flag c.restamped d.restamped))))

unfoldable pub has_column : List Column → Column → Bool
has_column [] c = false
has_column (d ∷ ds) c = same_column d c || has_column ds c

abbrev or_empty : Option Text → Text
or_empty none = []
or_empty (some v) = v

same_column→eq : (c d : Column) → same_column c d ≡ true → c ≡ d
same_column→eq c d h = ground (
  arith,
  text_eq_iff c.name d.name,
  text_eq_iff c.sql_type d.sql_type,
  text_eq_iff (or_empty c.client_default) (or_empty d.client_default),
)

-- One list of columns holds another.
unfoldable holds : List Column → List Column → Bool
holds ds [] = true
holds ds (c ∷ cs) = has_column ds c && holds ds cs

included :
    (cs ds : List Column)
    → holds ds cs ≡ true
    → (c : Column) → has_column cs c ≡ true
    → has_column ds c ≡ true
unfolding has_column holds
included [] ds h c k = cc
included (b ∷ cs) ds h c k = elim (Bool-cases (same_column b c)) [
  | inl same ↦
      let here : has_column ds b ≡ true = ground (arith, h) in
      subst (λ x. has_column ds x ≡ true) (same_column→eq b c same) here
  | inr other ↦
      let rest : holds ds cs ≡ true = ground (arith, h) in included cs ds rest c (rw other at k)
]

same_columns :
    (cs ds : List Column)
    → holds ds cs ≡ true
    → holds cs ds ≡ true
    → (c : Column) → has_column cs c ≡ has_column ds c
same_columns cs ds h k c = ground (arith, included cs ds h c, included ds cs k c)

abbrev pub every_upgrade : List Upgrade
every_upgrade = upgrade create_trades ++ (upgrade add_exit_columns ++ upgrade create_daily_pnl)

trades_hold :
    (holds (map in_database trade_model) (created (codes "trades") every_upgrade) ≡ true)
    × (holds (created (codes "trades") every_upgrade) (map in_database trade_model) ≡ true)
unfolding holds has_column created upgrade trade_model text_eq
trades_hold = (refl, refl)

daily_pnl_holds :
    (holds (map in_database pnl_model) (created (codes "daily_pnl") every_upgrade) ≡ true)
    × (holds (created (codes "daily_pnl") every_upgrade) (map in_database pnl_model) ≡ true)
unfolding holds has_column created upgrade pnl_model text_eq
daily_pnl_holds = (refl, refl)

-- The columns that the migrations give to each table are exactly the columns that its model
-- declares, by name, type, nullability and server default; the defaults that SQLAlchemy fills in are
-- no part of them.
pub created_columns :
    (c : Column)
    → (has_column (created (codes "trades") every_upgrade) c
        ≡ has_column (map in_database trade_model) c)
      × (has_column (created (codes "daily_pnl") every_upgrade) c
          ≡ has_column (map in_database pnl_model) c)
created_columns c = (
  same_columns (created (codes "trades") every_upgrade) (map in_database trade_model) trades_hold.0
      trades_hold.1 c,
  same_columns (created (codes "daily_pnl") every_upgrade) (map in_database pnl_model)
      daily_pnl_holds.0 daily_pnl_holds.1 c,
)
