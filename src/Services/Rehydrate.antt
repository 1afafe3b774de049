-- ===== src/Services/Rehydrate.antt =====
-- `position_from_trade` and the status sets of src/quant_execution/domain/services.py: which trades
-- are rebuilt into the book at startup, and in which state.
use quant_execution.Base.{Bool, true, false, Option, none, some, if◌then◌else◌}
use quant_execution.Domain.Enums.{
  TradeStatus, cash_held, submitted, partially_filled, filled, exit_submitted,
  exit_partially_filled, PositionState, pending_entry, opened, exiting,
}
use quant_execution.Domain.Decimal.{Decimal, is_zero}
use quant_execution.Domain.Records.{Trade, Position}

-- `status in REHYDRATE_STATUSES`
unfoldable pub is_rehydrated : TradeStatus → Bool
is_rehydrated cash_held = true
is_rehydrated submitted = true
is_rehydrated partially_filled = true
is_rehydrated filled = true
is_rehydrated exit_submitted = true
is_rehydrated exit_partially_filled = true
is_rehydrated _ = false

-- The state of `position_from_trade`, by `_OPEN_STATUSES` and `_EXITING_STATUSES`.
unfoldable pub rehydrated_state : TradeStatus → PositionState
rehydrated_state filled = opened
rehydrated_state exit_submitted = exiting
rehydrated_state exit_partially_filled = exiting
rehydrated_state _ = pending_entry

-- `a or b` on decimals: `None` and zero are falsy.
abbrev pub or_decimal : Option Decimal → Decimal → Decimal
or_decimal none b = b
or_decimal (some a) b = if is_zero a then b else a

unfoldable pub position_from_trade : Trade → Position
unfolding rehydrated_state
position_from_trade t = record {
  trade_id = t.id;
  symbol = t.symbol;
  position_type = t.position_type;
  quantity = or_decimal t.filled_quantity t.quantity;
  entry_price = or_decimal t.filled_avg_price t.trigger_price;
  sell_price = t.target_sell_price;
  is_paper = t.is_paper;
  idempotency_key = t.idempotency_key;
  broker_order_id = t.broker_order_id;
  exit_broker_order_id = t.exit_broker_order_id;
  cash_hold_id = t.cash_hold_id;
  state = rehydrated_state t.status;
}
