-- ===== src/Domain/Records.antt =====
-- The records that the parts exchange: src/quant_execution/domain/schemas.py, the `trades` row of
-- repository/models.py, the writer's tasks of repository/async_writer.py, and a broker's order.
-- Ids (`uuid.UUID`) and instants (`datetime`, microseconds since the epoch, UTC) are numbers.
use quant_execution.Base.{ℕ, Text, Bool, Option, some, List, [], ◌∷◌}
use quant_execution.Domain.Enums.{
  ExecutionMode, OrderSide, PositionType, ExitReason, TradeStatus, PositionState,
}
use quant_execution.Domain.Decimal.{Decimal}

pub record WatchlistEntry : Type 0 where
  pub symbol : Text
  pub buy_price : Decimal
  pub sell_price : Decimal
  pub position_type : PositionType
  pub source_query_id : Option Text
  pub trigger_reason : Option Text
  pub status : Text

pub record Tick : Type 0 where
  pub symbol : Text
  pub price : Decimal
  pub ts : Option ℕ

pub record MessageMeta : Type 0 where
  pub topic : Text
  pub partition : ℕ
  pub offset : ℕ

pub record AlpacaOrder : Type 0 where
  pub id : Text
  pub status : Text
  pub filled_qty : Option Decimal
  pub filled_avg_price : Option Decimal

pub record Position : Type 0 where
  pub trade_id : ℕ
  pub symbol : Text
  pub position_type : PositionType
  pub quantity : Decimal
  pub entry_price : Decimal
  pub sell_price : Option Decimal
  pub is_paper : Bool
  pub idempotency_key : Text
  pub broker_order_id : Option Text
  pub exit_broker_order_id : Option Text
  pub cash_hold_id : Option ℕ
  pub state : PositionState

pub record Trade : Type 0 where
  pub id : ℕ
  pub execution_mode : ExecutionMode
  pub is_paper : Bool
  pub symbol : Text
  pub side : OrderSide
  pub position_type : PositionType
  pub target_buy_price : Decimal
  pub trigger_price : Decimal
  pub quantity : Decimal
  pub notional : Decimal
  pub currency : Text
  pub status : TradeStatus
  pub broker : Text
  pub broker_order_id : Option Text
  pub filled_quantity : Option Decimal
  pub filled_avg_price : Option Decimal
  pub target_sell_price : Option Decimal
  pub exit_broker_order_id : Option Text
  pub exit_filled_quantity : Option Decimal
  pub exit_filled_avg_price : Option Decimal
  pub exit_reason : Option ExitReason
  pub cash_hold_id : Option ℕ
  pub source_query_id : Option Text
  pub trigger_reason : Option Text
  pub idempotency_key : Text
  pub kafka_topic : Option Text
  pub kafka_partition : Option ℕ
  pub kafka_offset : Option ℕ
  pub error_code : Option Text
  pub error_detail : Option Text
  pub created_at : ℕ
  pub submitted_at : Option ℕ
  pub filled_at : Option ℕ
  pub exit_submitted_at : Option ℕ
  pub closed_at : Option ℕ
  pub updated_at : ℕ

-- One keyword argument of `TradeWriter.update`, by its column.
pub data Change : Type 0 where
  status : TradeStatus → Change
  broker_order_id exit_broker_order_id error_code error_detail : Text → Change
  filled_quantity filled_avg_price exit_filled_quantity exit_filled_avg_price :
      Option Decimal → Change
  exit_reason : ExitReason → Change
  cash_hold_id submitted_at filled_at exit_submitted_at closed_at : ℕ → Change

pub data Task : Type 0 where
  insert : Trade → Task
  update : ℕ → List Change → Task

-- One column of an `UPDATE trades SET …`.
unfoldable pub apply_change : Change → Trade → Trade
apply_change (status s) t = record t { status = s }
apply_change (broker_order_id i) t = record t { broker_order_id = some i }
apply_change (exit_broker_order_id i) t = record t { exit_broker_order_id = some i }
apply_change (error_code c) t = record t { error_code = some c }
apply_change (error_detail d) t = record t { error_detail = some d }
apply_change (filled_quantity q) t = record t { filled_quantity = q }
apply_change (filled_avg_price p) t = record t { filled_avg_price = p }
apply_change (exit_filled_quantity q) t = record t { exit_filled_quantity = q }
apply_change (exit_filled_avg_price p) t = record t { exit_filled_avg_price = p }
apply_change (exit_reason r) t = record t { exit_reason = some r }
apply_change (cash_hold_id h) t = record t { cash_hold_id = some h }
apply_change (submitted_at w) t = record t { submitted_at = some w }
apply_change (filled_at w) t = record t { filled_at = some w }
apply_change (exit_submitted_at w) t = record t { exit_submitted_at = some w }
apply_change (closed_at w) t = record t { closed_at = some w }

unfoldable pub apply_changes : List Change → Trade → Trade
unfolding apply_change
apply_changes [] t = t
apply_changes (c ∷ cs) t = apply_changes cs (apply_change c t)
