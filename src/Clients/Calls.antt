-- ===== src/Clients/Calls.antt =====
-- The operations of `AlpacaBroker` (src/quant_execution/clients/alpaca_client.py) and `CashClient`
-- (clients/cash_client.py) over their `_request`. httpx, pydantic and `str` of a number are not part
-- of the program: the server, the validation of a payload and the texts are fields of `Services`.
pub mod Replies
use quant_execution.Base.{ℕ, Text, Option, none, some, List, [], ◌∷◌, ◌++◌, codes, lower}
use quant_execution.Clients.Retry.{Attempt, Outcome, returned, rejected, exhausted, request}
use quant_execution.Domain.Decimal.{Decimal}
use quant_execution.Domain.Enums.{OrderSide, side_value}
use quant_execution.Domain.Records.{AlpacaOrder}
use quant_execution.Services.Keys.{decimal}
use quant_execution.Services.World.{Reply, answer, refused, invalid, Answers}

pub record Request : Type 0 where
  pub method : Text
  pub path : Text
  pub json_body : List (Text × Text)

-- The two servers, answering the n-th attempt of a request, and what the clients take from libraries;
-- `Payload` is a decoded JSON value.
pub record Services (Payload : Type 0) : Type 0 where
  pub alpaca : Request → ℕ → Attempt Payload
  pub cash : Request → ℕ → Attempt Payload
  pub read_order : Payload → Option AlpacaOrder
  pub read_hold : Payload → Option ℕ
  pub available_balance : Payload → Option Text
  pub read_decimal : Text → Option Decimal
  pub decimal_text : Decimal → Text
  pub id_text : ℕ → Text
  pub last_error : Request → Text

-- The settings of a client.
pub record Account : Type 0 where
  pub account_id : Text
  pub currency : Text
  pub max_attempts : ℕ

abbrev pub validated : {A : Type 0} → Option A → Reply A
validated none = invalid
validated (some a) = answer a

module _ {Payload A : Type 0} where
  -- `_request`, and what the caller makes of the payload.
  abbrev pub reply_of : (Payload → Reply A) → (Outcome Payload → Text) → Outcome Payload → Reply A
  reply_of read message (returned j) = read j
  reply_of read message (rejected code) = refused (message (rejected code))
  reply_of read message exhausted = refused (message exhausted)

  unfoldable pub send :
      (ℕ → Attempt Payload) → ℕ → (Payload → Reply A) → (Outcome Payload → Text) → Reply A
  send answers max_attempts read message = reply_of read message (request answers max_attempts).0

module _ {Payload : Type 0} (sv : Services Payload) (account : Account) where
  -- The texts of the two `raise` statements of `_request`.
  abbrev pub error_text : Text → Request → Outcome Payload → Text
  error_text service r (returned j) = []
  error_text service r (rejected code) =
      service
      ++ (codes " "
          ++ (r.method ++ (codes " " ++ (r.path ++ (codes " rejected: " ++ decimal code)))))
  error_text service r exhausted =
      service
      ++ (codes " "
          ++ (r.method
              ++ (codes " "
                  ++ (r.path
                      ++ (codes " failed after "
                          ++ (decimal account.max_attempts
                              ++ (codes " attempts: " ++ sv.last_error r)))))))

  abbrev pub order_request : Text → Decimal → OrderSide → Text → Request
  order_request symbol qty side client_order_id = record {
    method = codes "POST";
    path = codes "/v2/orders";
    json_body =
        (codes "symbol", symbol)
        ∷ (codes "qty", sv.decimal_text qty)
        ∷ (codes "side", lower (side_value side))
        ∷ (codes "type", codes "market")
        ∷ (codes "time_in_force", codes "day")
        ∷ (codes "client_order_id", client_order_id)
        ∷ [];
  }

  abbrev pub alpaca_call : {A : Type 0} → Request → (Payload → Reply A) → Reply A
  alpaca_call r read = send (sv.alpaca r) account.max_attempts read (error_text (codes "alpaca") r)

  abbrev pub cash_call : {A : Type 0} → Request → (Payload → Reply A) → Reply A
  cash_call r read = send (sv.cash r) account.max_attempts read (error_text (codes "cash") r)

  -- `AlpacaBroker.submit_order`
  unfoldable pub submit_order : Text → Decimal → OrderSide → Text → Reply AlpacaOrder
  submit_order symbol qty side client_order_id =
      alpaca_call (order_request symbol qty side client_order_id) (λ j. validated (sv.read_order j))

  -- `AlpacaBroker.get_order`
  unfoldable pub get_order : Text → Reply AlpacaOrder
  get_order broker_order_id =
      alpaca_call
        (record {
          method = codes "GET";
          path = codes "/v2/orders/" ++ broker_order_id;
          json_body = [];
        })
        (λ j. validated (sv.read_order j))

  abbrev balance_of : Option Text → Reply Decimal
  balance_of none = refused (codes "cash balance response missing available_balance")
  balance_of (some raw) = validated (sv.read_decimal raw)

  -- `CashClient.get_available_balance`
  unfoldable pub get_available_balance : Reply Decimal
  get_available_balance =
      cash_call
        (record {
          method = codes "GET";
          path = codes "/accounts/" ++ (account.account_id ++ codes "/balance");
          json_body = [];
        })
        (λ j. balance_of (sv.available_balance j))

  abbrev pub hold_request : Decimal → Text → Text → Request
  hold_request amount reason reference_id = record {
    method = codes "POST";
    path = codes "/holds";
    json_body =
        (codes "account_id", account.account_id)
        ∷ (codes "amount", sv.decimal_text amount)
        ∷ (codes "currency", account.currency)
        ∷ (codes "reason", reason)
        ∷ (codes "reference_id", reference_id)
        ∷ [];
  }

  -- `CashClient.place_hold`
  unfoldable pub place_hold : Decimal → Text → Text → Reply ℕ
  place_hold amount reason reference_id =
      cash_call (hold_request amount reason reference_id) (λ j. validated (sv.read_hold j))

  abbrev hold_action : ℕ → Text → Reply (Unit {0})
  hold_action hold_id action =
      cash_call
        (record {
          method = codes "POST";
          path = codes "/holds/" ++ (sv.id_text hold_id ++ action);
          json_body = [];
        })
        (λ j. answer tt)

  -- `CashClient.capture_hold`
  unfoldable pub capture_hold : ℕ → Reply (Unit {0})
  capture_hold hold_id = hold_action hold_id (codes "/capture")

  -- `CashClient.release_hold`
  unfoldable pub release_hold : ℕ → Reply (Unit {0})
  release_hold hold_id = hold_action hold_id (codes "/release")

  -- The answers that one handler of the execution service gets from these clients.
  unfoldable pub answers_from : ℕ → ℕ → Answers
  answers_from now new_id = record {
    submit_order = submit_order;
    get_order = get_order;
    available_balance = get_available_balance;
    place_hold = λ notional key. place_hold notional key key;
    now = now;
    new_id = new_id;
  }
