-- ===== src/Api/Trades.antt =====
-- src/quant_execution/api/routes/trades.py.
pub mod Laws
use quant_execution.Api.{
  Library, Value, Item, Body, Response, answered, error_response, optional_value, serialized,
}
use quant_execution.Api.Query.{
  Params, Checked, ◌>>=◌, refused, accepted, check_mode, check_status, symbol_filter,
  check_pagination,
}
use quant_execution.Base.{
  ℕ, Text, Bool, Option, none, some, List, [], ◌∷◌, ◌++◌, codes, length, map,
}
use quant_execution.Base.Int.{pos}
use quant_execution.Domain.Enums.{mode_value, side_value, type_value, reason_value, status_value}
use quant_execution.Domain.Records.{Trade}
use quant_execution.Repository.History.{Filter, list_history}
use quant_execution.Repository.Trades.{Table, get}

-- `Trade.__table__.columns`
unfoldable pub trade_columns : Trade → List (Text × Value)
trade_columns t =
    (codes "id", Value.id t.id)
    ∷ (codes "execution_mode", Value.string (mode_value t.execution_mode))
    ∷ (codes "is_paper", Value.boolean t.is_paper)
    ∷ (codes "symbol", Value.string t.symbol)
    ∷ (codes "side", Value.string (side_value t.side))
    ∷ (codes "position_type", Value.string (type_value t.position_type))
    ∷ (codes "target_buy_price", Value.decimal t.target_buy_price)
    ∷ (codes "trigger_price", Value.decimal t.trigger_price)
    ∷ (codes "quantity", Value.decimal t.quantity)
    ∷ (codes "notional", Value.decimal t.notional)
    ∷ (codes "currency", Value.string t.currency)
    ∷ (codes "status", Value.string (status_value t.status))
    ∷ (codes "broker", Value.string t.broker)
    ∷ (codes "broker_order_id", optional_value Value.string t.broker_order_id)
    ∷ (codes "filled_quantity", optional_value Value.decimal t.filled_quantity)
    ∷ (codes "filled_avg_price", optional_value Value.decimal t.filled_avg_price)
    ∷ (codes "target_sell_price", optional_value Value.decimal t.target_sell_price)
    ∷ (codes "exit_broker_order_id", optional_value Value.string t.exit_broker_order_id)
    ∷ (codes "exit_filled_quantity", optional_value Value.decimal t.exit_filled_quantity)
    ∷ (codes "exit_filled_avg_price", optional_value Value.decimal t.exit_filled_avg_price)
    ∷ (codes "exit_reason", optional_value (λ r. Value.string (reason_value r)) t.exit_reason)
    ∷ (codes "cash_hold_id", optional_value Value.id t.cash_hold_id)
    ∷ (codes "source_query_id", optional_value Value.string t.source_query_id)
    ∷ (codes "trigger_reason", optional_value Value.string t.trigger_reason)
    ∷ (codes "idempotency_key", Value.string t.idempotency_key)
    ∷ (codes "kafka_topic", optional_value Value.string t.kafka_topic)
    ∷ (codes "kafka_partition", optional_value (λ n. Value.number (pos n)) t.kafka_partition)
    ∷ (codes "kafka_offset", optional_value (λ n. Value.number (pos n)) t.kafka_offset)
    ∷ (codes "error_code", optional_value Value.string t.error_code)
    ∷ (codes "error_detail", optional_value Value.string t.error_detail)
    ∷ (codes "created_at", Value.instant t.created_at)
    ∷ (codes "submitted_at", optional_value Value.instant t.submitted_at)
    ∷ (codes "filled_at", optional_value Value.instant t.filled_at)
    ∷ (codes "exit_submitted_at", optional_value Value.instant t.exit_submitted_at)
    ∷ (codes "closed_at", optional_value Value.instant t.closed_at)
    ∷ (codes "updated_at", Value.instant t.updated_at)
    ∷ []

-- `_serialize_trade`
unfoldable pub serialize_trade : Library → Trade → Item
serialize_trade lib t = serialized lib (trade_columns t)

abbrev pub response_of : Checked Response → Response
response_of (refused r) = r
response_of (accepted r) = r

-- The arguments of `list_history`.
abbrev pub query_of : Params → Option Bool → Option Text → ℕ × ℕ → Filter × ℕ × ℕ
query_of params mode status page =
    (record { is_paper = mode; status = status; symbol = symbol_filter params }, page.0, page.1)

-- What the route reads from its query.
unfoldable pub read_query : Library → Params → Checked (Filter × ℕ × ℕ)
read_query lib params = do
  mode ← check_mode lib params
  status ← check_status lib params
  page ← check_pagination params
  accepted (query_of params mode status page)

unfoldable pub list_response : Library → Table → Filter × ℕ × ℕ → Response
list_response lib rows (f, limit, offset) =
    let items = map (serialize_trade lib) (list_history lib.rank f limit offset rows) in
    answered (Body.listed (length items) limit offset items)

-- `list_trades`
unfoldable pub list_trades : Library → Params → Table → Response
list_trades lib params rows =
    response_of (do query ← read_query lib params; accepted (list_response lib rows query))

abbrev found_trade : Library → Text → Option Trade → Response
found_trade lib trade_id none =
    error_response 404 (codes "not_found") (codes "no trade with id " ++ trade_id)
found_trade lib trade_id (some t) = answered (Body.trade (serialize_trade lib t))

abbrev parsed_id : Library → Text → Table → Option ℕ → Response
parsed_id lib trade_id rows none =
    error_response 400 (codes "invalid_id") (codes "not a valid trade id: " ++ lib.quoted trade_id)
parsed_id lib trade_id rows (some i) = found_trade lib trade_id (get i rows)

-- `get_trade`
unfoldable pub get_trade : Library → Text → Table → Response
get_trade lib trade_id rows = parsed_id lib trade_id rows (lib.read_id trade_id)
