-- ===== src/Tests/Data.antt =====
-- The inputs of the tests.
use quant_execution.Base.{ℕ, Text, codes, Bool, true, Option, none, some, [], ◌∷◌}
use quant_execution.Base.Int.{pos}
use quant_execution.Domain.Enums.{paper, live, long, buy, TradeStatus, PositionState}
use quant_execution.Domain.Decimal.{Decimal}
use quant_execution.Domain.Records.{WatchlistEntry, Tick, MessageMeta, AlpacaOrder, Position, Trade}
use quant_execution.Domain.Clock.{ClockTime, Moment}
use quant_execution.Positions.{Book}
use quant_execution.Services.World.{Reply, answer, Answers, Service, World}

abbrev pub apple : Text
apple = codes "AAPL"

abbrev pub base : Text
base = codes "paper:AAPL::2024-10-04"

abbrev pub signal : WatchlistEntry
signal = record {
  symbol = apple;
  buy_price = pos 10000000000;
  sell_price = pos 11000000000;
  position_type = long;
  source_query_id = none;
  trigger_reason = none;
  status = codes "active";
}

abbrev pub tick : Tick
tick = record { symbol = apple; price = pos 10000000000; ts = some 1728000000000000 }

abbrev pub provenance : MessageMeta
provenance = record { topic = codes "ticks"; partition = 0; offset = 7 }

abbrev pub paper_service : Service
paper_service = record {
  mode = paper;
  notional_usd = some (pos 100000000000);
  quantity = none;
  broker_name = codes "paper";
}

abbrev pub live_service : Service
live_service = record {
  mode = live;
  notional_usd = some (pos 100000000000);
  quantity = none;
  broker_name = codes "alpaca";
}

-- Ten shares at a hundred dollars.
abbrev pub ten_shares : Decimal
ten_shares = pos 1000000000

abbrev pub thousand : Decimal
thousand = pos 100000000000

abbrev pub order_of : Text → AlpacaOrder
order_of status = record {
  id = codes "o-1";
  status = status;
  filled_qty = some ten_shares;
  filled_avg_price = some (pos 10000000000);
}

abbrev pub answers : Decimal → Reply AlpacaOrder → Answers
answers balance reply = record {
  submit_order = λ s q d k. reply;
  get_order = λ i. reply;
  available_balance = answer balance;
  place_hold = λ a k. answer 5;
  now = 1728000000000000;
  new_id = 1;
}

abbrev pub filled_answers : Answers
filled_answers = answers (pos 200000000000) (answer (order_of (codes "filled")))

abbrev pub position : Bool → PositionState → Position
position on_paper state = record {
  trade_id = 1;
  symbol = apple;
  position_type = long;
  quantity = ten_shares;
  entry_price = pos 10000000000;
  sell_price = some (pos 11000000000);
  is_paper = on_paper;
  idempotency_key = base;
  broker_order_id = some (codes "o-1");
  exit_broker_order_id = none;
  cash_hold_id = some 5;
  state = state;
}

abbrev pub book_of : Position → Book
book_of p = (apple, (1, p) ∷ []) ∷ []

abbrev pub world_of : Book → World
world_of book = record {
  keys = record { seen = []; attempts = [] };
  last_price = [];
  book = book;
  tasks = [];
  calls = [];
}

abbrev pub empty_world : World
empty_world = world_of []

abbrev pub at_sixteen : ClockTime
at_sixteen = record { hour = 16; minute = 0; second = 0; microsecond = 0 }

abbrev pub at_five_past : ClockTime
at_five_past = record { hour = 16; minute = 5; second = 0; microsecond = 0 }

abbrev pub afternoon : Moment
afternoon = record { day = 20000; time = at_five_past }

abbrev pub row : ℕ → Text → TradeStatus → Option ℕ → Trade
row id key status closed_at = record {
  id = id;
  execution_mode = paper;
  is_paper = true;
  symbol = apple;
  side = buy;
  position_type = long;
  target_buy_price = pos 10000000000;
  trigger_price = pos 10000000000;
  quantity = ten_shares;
  notional = thousand;
  currency = codes "USD";
  status = status;
  broker = codes "paper";
  broker_order_id = none;
  filled_quantity = some ten_shares;
  filled_avg_price = some (pos 10000000000);
  target_sell_price = some (pos 11000000000);
  exit_broker_order_id = none;
  exit_filled_quantity = some ten_shares;
  exit_filled_avg_price = some (pos 11000000000);
  exit_reason = none;
  cash_hold_id = none;
  source_query_id = none;
  trigger_reason = none;
  idempotency_key = key;
  kafka_topic = none;
  kafka_partition = none;
  kafka_offset = none;
  error_code = none;
  error_detail = none;
  created_at = 0;
  submitted_at = none;
  filled_at = none;
  exit_submitted_at = none;
  closed_at = closed_at;
  updated_at = 0;
}
