-- ===== src/Services/TradeRows.antt =====
-- The row that `execute` of src/quant_execution/domain/services.py inserts.
use quant_execution.Base.{Text, ◌≡◌, refl, codes, none, some, if◌then◌else◌, text_keys}
use quant_execution.Domain.Enums.{paper, is_paper_mode, mode_value, entry_side, new}
use quant_execution.Domain.Decimal.{Decimal}
use quant_execution.Domain.Records.{Tick, WatchlistEntry, MessageMeta, Trade}
use quant_execution.Domain.Schemas.{OrderIntent, from_match}
use quant_execution.Services.World.{Answers, Service}

-- The `Trade` row that `execute` builds. The server sets `created_at` and `updated_at` at insert.
unfoldable pub new_trade :
    Service → Answers → Tick → WatchlistEntry → MessageMeta → Text → Decimal → Decimal → Trade
new_trade sv ans tick entry provenance key qty notional = record {
  id = ans.new_id;
  execution_mode = sv.mode;
  is_paper = is_paper_mode sv.mode;
  symbol = entry.symbol;
  side = entry_side entry.position_type;
  position_type = entry.position_type;
  target_buy_price = entry.buy_price;
  trigger_price = tick.price;
  quantity = qty;
  notional = notional;
  currency = codes "USD";
  status = new;
  broker = if is_paper_mode sv.mode then mode_value paper else sv.broker_name;
  broker_order_id = none;
  filled_quantity = none;
  filled_avg_price = none;
  target_sell_price = some entry.sell_price;
  exit_broker_order_id = none;
  exit_filled_quantity = none;
  exit_filled_avg_price = none;
  exit_reason = none;
  cash_hold_id = none;
  source_query_id = entry.source_query_id;
  trigger_reason = entry.trigger_reason;
  idempotency_key = key;
  kafka_topic = some provenance.topic;
  kafka_partition = some provenance.partition;
  kafka_offset = some provenance.offset;
  error_code = none;
  error_detail = none;
  created_at = ans.now;
  submitted_at = none;
  filled_at = none;
  exit_submitted_at = none;
  closed_at = none;
  updated_at = ans.now;
}

abbrev intent_of : Trade → OrderIntent
intent_of t = record {
  symbol = t.symbol;
  side = t.side;
  position_type = t.position_type;
  target_buy_price = t.target_buy_price;
  trigger_price = t.trigger_price;
  trigger_reason = t.trigger_reason;
  source_query_id = t.source_query_id;
}

-- The row of a trade carries the intent of its match.
new_trade-intent :
    (sv : Service) (ans : Answers) (tick : Tick) (entry : WatchlistEntry) (provenance : MessageMeta)
    (key : Text) (qty notional : Decimal)
    → intent_of (new_trade sv ans tick entry provenance key qty notional) ≡ from_match entry tick
unfolding new_trade from_match
new_trade-intent sv ans tick entry provenance key qty notional = refl
