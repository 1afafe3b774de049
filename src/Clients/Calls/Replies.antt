-- ===== src/Clients/Calls/Replies.antt =====
-- What a reply of a client tells of the attempts of its request.
use quant_execution.Base.{
  ℕ, suc, ◌+◌, ◌-◌, codes, ◌<◌, ◌≤◌, ◌≡◌, refl, ap, sym, ◌∙◌, ◌⊎◌, inl, inr, Text, lower, [], ◌∷◌,
  Option, none, some, true, arith, ltb,
}
use quant_execution.Clients.Calls.{
  Request, Services, Account, validated, reply_of, error_text, send, order_request, submit_order,
}
use quant_execution.Clients.Retry.{
  Attempt, payload, http_status, no_response, Outcome, returned, rejected, exhausted, decided,
  request, request_from, request_first,
}
use quant_execution.Domain.Decimal.{Decimal}
use quant_execution.Domain.Enums.{OrderSide, buy, sell, side_value}
use quant_execution.Domain.Records.{AlpacaOrder}
use quant_execution.Services.World.{Reply, answer, refused}

decided-payload :
    {P : Type 0} (x : Attempt P) (j : P) → decided x ≡ some (returned j) → x ≡ payload j
unfolding decided
decided-payload (payload a) j h = ground (arith, h)
decided-payload (http_status code) j h = ground (arith, h)
decided-payload no_response j h = cc h

module _ {Payload A : Type 0} (answers : ℕ → Attempt Payload) (max_attempts : ℕ)
    (read : Payload → Option A) (message : Outcome Payload → Text) where
  reply-answer :
      (o : Outcome Payload) (a : A)
      → reply_of (λ j. validated (read j)) message o ≡ answer a
      → (j : Payload) × (o ≡ returned j) × (read j ≡ some a)
  reply-answer (returned j) a h = (j, refl, go (read j) h)
    where
      go : (r : Option A) → validated r ≡ answer a → r ≡ some a
      go none e = cc e
      go (some b) e = ground (arith, e)
  reply-answer (rejected code) a h = cc h
  reply-answer exhausted a h = cc h

  -- An answer comes from the payload of the first attempt that decides.
  pub send-answer :
      (a : A)
      → send answers max_attempts (λ j. validated (read j)) message ≡ answer a
      → (i : ℕ) × (j : Payload) × (i < max_attempts)
        × (answers i ≡ payload j)
        × (read j ≡ some a)
        × ((k : ℕ) → k < i → decided (answers k) ≡ none)
  unfolding send
  send-answer a h =
      let (j, o, e) = reply-answer (request answers max_attempts).0 a h in
      elim (request_first answers max_attempts) [
        | inl (i, below, gives, before, count) ↦ (
          i,
          j,
          below,
          decided-payload (answers i) j
              (ap (λ n. decided (answers n)) (from_zero i) ∙ gives ∙ ap some o),
          e,
          λ k lt. ap (λ n. decided (answers n)) (from_zero k) ∙ before k lt,
        )
        | inr (all, none_left, count) ↦ cc (none_left, o)
      ]
    where
      from_zero : (n : ℕ) → n ≡ 0 + n
      from_zero n = omega arith

-- The attempt got no response that can be read, or a status of the server's errors.
abbrev pub Failed : {P : Type 0} → Attempt P → Type 0
Failed x = (x ≡ no_response) ⊎ ((code : ℕ) × (x ≡ http_status code) × (500 ≤ code))

undecided-Failed : {P : Type 0} (x : Attempt P) → decided x ≡ none → Failed x
unfolding decided
undecided-Failed (payload a) h = cc h
undecided-Failed (http_status code) h = inr (code, refl, ground (arith, h))
undecided-Failed no_response h = inl refl

abbrev side_text : OrderSide → Text
side_text buy = codes "buy"
side_text sell = codes "sell"

-- A market order of the day, under its client order id.
abbrev pub posted : {P : Type 0} → Services P → Text → Decimal → OrderSide → Text → Request
posted sv symbol qty side key = record {
  method = codes "POST";
  path = codes "/v2/orders";
  json_body =
      (codes "symbol", symbol)
      ∷ (codes "qty", sv.decimal_text qty)
      ∷ (codes "side", side_text side)
      ∷ (codes "type", codes "market")
      ∷ (codes "time_in_force", codes "day")
      ∷ (codes "client_order_id", key)
      ∷ [];
}

order_request-posted :
    {P : Type 0} (sv : Services P) (account : Account) (symbol : Text) (qty : Decimal)
    (side : OrderSide) (key : Text)
    → order_request sv account symbol qty side key ≡ posted sv symbol qty side key
unfolding lower side_value
order_request-posted sv account symbol qty buy key = refl
order_request-posted sv account symbol qty sell key = refl

-- If the broker answers an order, then one attempt of the limit brought a payload that validates to
-- that answer, and every attempt before it brought no response or a status of 500 or above; all the
-- attempts posted the same market order, with the symbol, quantity and side asked for and the key as
-- its client order id.
pub submit_order-answer :
    {Payload : Type 0} (sv : Services Payload) (account : Account) (symbol : Text) (qty : Decimal)
    (side : OrderSide) (key : Text) (order : AlpacaOrder)
    → submit_order sv account symbol qty side key ≡ answer order
    → (i : ℕ) × (j : Payload) × (i < account.max_attempts)
      × (sv.alpaca (posted sv symbol qty side key) i ≡ payload j)
      × (sv.read_order j ≡ some order)
      × ((k : ℕ) → k < i → Failed (sv.alpaca (posted sv symbol qty side key) k))
unfolding submit_order
submit_order-answer sv account symbol qty side key order h =
    let r = order_request sv account symbol qty side key in
    let (i, j, below, brings, reads, before) =
      send-answer (sv.alpaca r) account.max_attempts sv.read_order _ order h in
    rw (sym (order_request-posted sv account symbol qty side key))
      (i, j, below, brings, reads, λ k lt. undecided-Failed (sv.alpaca r k) (before k lt))

rejected_second :
    {P A : Type 0} (answers : ℕ → Attempt P) (left code : ℕ) (read : P → Reply A)
    (message : Outcome P → Text)
    → answers 0 ≡ no_response
    → answers 1 ≡ http_status code
    → code < 500
    → send answers (suc (suc left)) read message ≡ refused (message (rejected code))
unfolding send request request_from decided
rejected_second answers left code read message lost again client =
    rw (lost, again) (rw is_client refl)
  where
    is_client : ltb code 500 ≡ true
    is_client = ground arith

-- If the first attempt to place an order gets no response and the second a 4xx, as a broker answers
-- to a client order id that it has already, the order counts as refused, although the first attempt
-- may have placed it.
pub submit_order_lost :
    {Payload : Type 0} (sv : Services Payload) (account : Account) (symbol : Text) (qty : Decimal)
    (side : OrderSide) (key : Text) (code : ℕ)
    → 2 ≤ account.max_attempts
    → sv.alpaca (order_request sv account symbol qty side key) 0 ≡ no_response
    → sv.alpaca (order_request sv account symbol qty side key) 1 ≡ http_status code
    → code < 500
    → (detail : Text) × (submit_order sv account symbol qty side key ≡ refused detail)
unfolding submit_order
submit_order_lost sv account symbol qty side key code two lost again client =
    let r = order_request sv account symbol qty side key in
    (
      error_text sv account (codes "alpaca") r (rejected code),
      ap
            (λ n.
              send (sv.alpaca r) n (λ j. validated (sv.read_order j))
                (error_text sv account (codes "alpaca") r))
            (omega (arith, two))
          ∙ rejected_second (sv.alpaca r) (account.max_attempts - 2) code _ _ lost again client,
    )
