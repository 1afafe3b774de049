-- ===== src/Services/World.antt =====
-- The state that the handlers of one executor process share, and a method call on it: state and
-- exceptions. What was written before a raise stays written.
-- The broker and the cash service answer each call of one handler by `Answers`; the writer's tasks
-- and the calls made are kept in order.
pub mod Stays
pub mod Shape
pub mod Orders
use quant_execution.Base.{
  ℕ, Text, Bool, Option, none, some, List, [], ◌∷◌, ◌++◌, if◌then◌else◌, text_keys,
}
use quant_execution.Base.Dict.{Dict, lookup, insert}
use quant_execution.Domain.Enums.{ExecutionMode, OrderSide}
use quant_execution.Domain.Decimal.{Decimal}
use quant_execution.Domain.Records.{AlpacaOrder, Task, Change, Trade}
use quant_execution.Positions.{Book}
use quant_execution.Services.Keys.{KeyState}

-- An answer of a client: its value, the error that the client raises (`BrokerError` or
-- `CashServiceError`, with its text), or another exception, such as a failed validation.
pub data Reply (A : Type 0) : Type 0 where
  answer : A → Reply A
  refused : Text → Reply A
  invalid : Reply A

pub record Answers : Type 0 where
  pub submit_order : Text → Decimal → OrderSide → Text → Reply AlpacaOrder
  pub get_order : Text → Reply AlpacaOrder
  pub available_balance : Reply Decimal
  pub place_hold : Decimal → Text → Reply ℕ
  pub now : ℕ
  pub new_id : ℕ

pub data Call : Type 0 where
  submit : Text → Decimal → OrderSide → Text → Call
  fetch : Text → Call
  read_balance : Call
  hold : Decimal → Text → Call
  capture release : ℕ → Call

pub data Error : Type 0 where
  configuration invalid_response empty_value parse_failure : Error

pub data Result (A : Type 0) : Type 0 where
  err : Error → Result A
  ok : A → Result A

pub record World : Type 0 where
  pub keys : KeyState
  pub last_price : Dict Text Decimal
  pub book : Book
  pub tasks : List Task
  pub calls : List Call

-- The settings of one `ExecutionService`.
pub record Service : Type 0 where
  pub mode : ExecutionMode
  pub notional_usd : Option Decimal
  pub quantity : Option Decimal
  pub broker_name : Text

abbrev pub Exec : Type 0 → Type 0
Exec A = World → Result A × World

abbrev pub pure : {A : Type 0} → A → Exec A
pure a w = (ok a, w)

abbrev pub raise : {A : Type 0} → Error → Exec A
raise e w = (err e, w)

abbrev pub after : {A B : Type 0} → Result A → (A → Exec B) → Exec B
after (ok a) f w = f a w
after (err e) f w = (err e, w)

infixl 5 ◌>>=◌ ◌>>◌
abbrev pub ◌>>=◌ : {A B : Type 0} → Exec A → (A → Exec B) → Exec B
◌>>=◌ m f w = after (m w).0 f (m w).1

abbrev pub ◌>>◌ : {A B : Type 0} → Exec A → Exec B → Exec B
m >> k = m >>= λ _. k

abbrev pub gets : {A : Type 0} → (World → A) → Exec A
gets f w = (ok (f w), w)

abbrev pub write : Task → Exec (Unit {0})
write t w = (ok tt, record w { tasks = w.tasks ++ t ∷ [] })

abbrev pub call : Call → Exec (Unit {0})
call c w = (ok tt, record w { calls = w.calls ++ c ∷ [] })

abbrev pub with_book : (Book → Book) → Exec (Unit {0})
with_book f w = (ok tt, record w { book = f w.book })

abbrev pub with_keys : (KeyState → KeyState) → Exec (Unit {0})
with_keys f w = (ok tt, record w { keys = f w.keys })

-- `ExecutionService.record_price`
unfoldable pub record_price : Text → Decimal → Exec (Unit {0})
record_price symbol price w = (ok tt, record w { last_price = insert symbol price w.last_price })
