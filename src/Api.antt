-- ===== src/Api.antt =====
-- src/quant_execution/api: what the routes answer. Bottle, the text formats of Python's values and
-- the parsers of `uuid` and `datetime` are not part of the program: a `Library` stands for them.
pub mod Query
pub mod Trades
pub mod Pnl
pub mod Health
use quant_execution.Base.{ℕ, Text, Bool, Option, none, some, List, codes, map}
use quant_execution.Base.Int.{ℤ}
use quant_execution.Domain.Decimal.{Decimal}
use quant_execution.Domain.Records.{Trade}

-- `rank` is the database's order of rows with one `created_at`.
pub record Library : Type 0 where
  pub rank : Trade → ℕ
  pub decimal_text : Decimal → Text
  pub instant_text : ℕ → Text
  pub date_text : ℕ → Text
  pub id_text : ℕ → Text
  pub quoted : Text → Text
  pub read_id : Text → Option ℕ
  pub read_date : Text → Option ℕ

-- The values of a column, and what the JSON of an answer holds.
pub data Value : Type 0 where
  decimal : Decimal → Value
  instant date id : ℕ → Value
  string : Text → Value
  number : ℤ → Value
  boolean : Bool → Value
  null : Value

pub data Json : Type 0 where
  string : Text → Json
  number : ℤ → Json
  boolean : Bool → Json
  null : Json

-- `_to_jsonable`
unfoldable pub to_jsonable : Library → Value → Json
to_jsonable lib (decimal d) = Json.string (lib.decimal_text d)
to_jsonable lib (instant i) = Json.string (lib.instant_text i)
to_jsonable lib (date d) = Json.string (lib.date_text d)
to_jsonable lib (id i) = Json.string (lib.id_text i)
to_jsonable lib (string s) = Json.string s
to_jsonable lib (number n) = Json.number n
to_jsonable lib (boolean b) = Json.boolean b
to_jsonable lib null = Json.null

abbrev pub optional_value {ℓ} : {A : Type ℓ} → (A → Value) → Option A → Value
optional_value f none = null
optional_value f (some a) = f a

abbrev pub Item : Type 0
Item = List (Text × Json)

abbrev pub serialized : Library → List (Text × Value) → Item
serialized lib columns = map (λ c. (c.0, to_jsonable lib c.1)) columns

-- The dictionaries that the routes return; `listed` has `count`, `limit` and `offset`.
pub data Body : Type 0 where
  error : Text → Text → Body
  listed : ℕ → ℕ → ℕ → List Item → Body
  trade : Item → Body
  day : Text → ℕ → List Item → Body
  ok : Body
  healthy : Text → Body

pub record Response : Type 0 where
  pub status : ℕ
  pub body : Body

abbrev pub answered : Body → Response
answered body = record { status = 200; body = body }

-- `_error`
abbrev pub error_response : ℕ → Text → Text → Response
error_response status code message = record { status = status; body = error code message }
