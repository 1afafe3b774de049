-- ===== src/Domain/Schemas.antt =====
-- `Tick.parse` and `OrderIntent` of src/quant_execution/domain/schemas.py. pydantic is a parameter,
-- as the three conversions of a JSON value to a field; `populate_by_name` adds no name, since each
-- field's own name is its first alias. A JSON object is a `Dict`.
use quant_execution.Base.{ℕ, Text, ◌≡◌, refl, Option, none, some, codes, text_keys}
use quant_execution.Base.Dict.{Dict, lookup}
use quant_execution.Domain.Decimal.{Decimal}
use quant_execution.Domain.Enums.{OrderSide, PositionType, entry_side}
use quant_execution.Domain.Records.{Tick, WatchlistEntry}

-- What pydantic reads from a text: the object of a JSON text, and a field's value, or `none` where
-- it is not valid.
pub record Pydantic (J : Type 0) : Type 0 where
  pub json_object : Text → Option (Dict Text J)
  pub text_field : J → Option Text
  pub decimal_field : J → Option Decimal
  pub datetime_field : J → Option (Option ℕ)

-- A Kafka message value: `bytes`, as what decoding them from UTF-8 gives, or `str`.
pub data Raw : Type 0 where
  bytes : Option Text → Raw
  str : Text → Raw

abbrev tick_of : Option Text → Option Decimal → Option (Option ℕ) → Option Tick
tick_of (some symbol) (some price) (some ts) =
    some (record { symbol = symbol; price = price; ts = ts })
tick_of _ _ _ = none

module _ {J : Type 0} where
  -- `AliasChoices(first, second)`: the first alias that the object has.
  abbrev or_second : Option J → Option J → Option J
  or_second none second = second
  or_second (some v) second = some v

  unfoldable pub alias_choices : Text → Text → Dict Text J → Option J
  alias_choices first second fields = or_second (lookup first fields) (lookup second fields)

  -- A required field, and one with the default `None`.
  abbrev required_field : {A : Type 0} → (J → Option A) → Option J → Option A
  required_field read none = none
  required_field read (some v) = read v

  abbrev defaulted_field : {A : Type 0} → (J → Option (Option A)) → Option J → Option (Option A)
  defaulted_field read none = some none
  defaulted_field read (some v) = read v

  -- `Tick`, from the fields of an object; other fields are ignored.
  unfoldable pub validate_tick : Pydantic J → Dict Text J → Option Tick
  unfolding alias_choices
  validate_tick py fields =
      tick_of
        (required_field py.text_field (alias_choices (codes "symbol") (codes "ticker") fields))
        (required_field py.decimal_field (alias_choices (codes "price") (codes "close") fields))
        (defaulted_field py.datetime_field (alias_choices (codes "ts") (codes "bar_time") fields))

  abbrev validated : Pydantic J → Option (Dict Text J) → Option Tick
  validated py none = none
  validated py (some fields) = validate_tick py fields

  abbrev decoded : Pydantic J → Option Text → Option Tick
  decoded py none = none
  decoded py (some text) = validated py (py.json_object text)

  -- `Tick.parse`; `none` is a `UnicodeDecodeError` or a `ValidationError`.
  unfoldable pub parse_tick : Pydantic J → Raw → Option Tick
  unfolding validate_tick
  parse_tick py (bytes text) = decoded py text
  parse_tick py (str text) = decoded py (some text)

pub record OrderIntent : Type 0 where
  pub symbol : Text
  pub side : OrderSide
  pub position_type : PositionType
  pub target_buy_price : Decimal
  pub trigger_price : Decimal
  pub trigger_reason : Option Text
  pub source_query_id : Option Text

-- `OrderIntent.from_match`
unfoldable pub from_match : WatchlistEntry → Tick → OrderIntent
from_match entry tick = record {
  symbol = entry.symbol;
  side = entry_side entry.position_type;
  position_type = entry.position_type;
  target_buy_price = entry.buy_price;
  trigger_price = tick.price;
  trigger_reason = entry.trigger_reason;
  source_query_id = entry.source_query_id;
}

module _ {J : Type 0} where
  -- A value under one alias, and not under the other that comes first.
  alias_choices-same :
      (a b : Text) (tick bar : Dict Text J)
      → lookup a bar ≡ none
      → lookup b tick ≡ none
      → lookup a tick ≡ lookup b bar
      → alias_choices a b bar ≡ alias_choices a b tick
  unfolding alias_choices
  alias_choices-same a b tick bar bare other same = rw (bare, other, same) (kept (lookup b bar))
    where
      kept : (o : Option J) → o ≡ or_second o none
      kept none = refl
      kept (some v) = refl

  -- An object `bar` has the fields of a bar, and no others that a tick reads, with the values that
  -- the object `tick` has under the names of a tick.
  pub record BarOf (tick bar : Dict Text J) : Type 0 where
    pub no_symbol : lookup (codes "symbol") bar ≡ none
    pub no_price : lookup (codes "price") bar ≡ none
    pub no_ts : lookup (codes "ts") bar ≡ none
    pub no_ticker : lookup (codes "ticker") tick ≡ none
    pub no_close : lookup (codes "close") tick ≡ none
    pub no_bar_time : lookup (codes "bar_time") tick ≡ none
    pub symbol : lookup (codes "symbol") tick ≡ lookup (codes "ticker") bar
    pub price : lookup (codes "price") tick ≡ lookup (codes "close") bar
    pub ts : lookup (codes "ts") tick ≡ lookup (codes "bar_time") bar

  -- A bar is read as the tick with its ticker, its close and its time, whatever its other fields.
  pub validate_tick-bar :
      (py : Pydantic J) (tick bar : Dict Text J)
      → BarOf tick bar
      → validate_tick py bar ≡ validate_tick py tick
  unfolding validate_tick
  validate_tick-bar py tick bar h =
      rw
        (
          alias_choices-same (codes "symbol") (codes "ticker") tick bar h.no_symbol h.no_ticker
              h.symbol,
          alias_choices-same (codes "price") (codes "close") tick bar h.no_price h.no_close h.price,
          alias_choices-same (codes "ts") (codes "bar_time") tick bar h.no_ts h.no_bar_time h.ts,
        )
        refl
