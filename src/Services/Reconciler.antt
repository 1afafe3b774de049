-- ===== src/Services/Reconciler.antt =====
-- `class PositionReconciler` of src/quant_execution/domain/services.py, wired as in
-- src/quant_execution/workers/executor.py: `on_close` is `ExecutionService.forget`.
pub mod Outcomes
pub mod Shape
pub mod Orders
pub mod Settled
pub mod Lifecycle
use quant_execution.Base.{
  ℕ, suc, ◌+◌, Text, codes, ◌≡◌, Bool, true, false, Option, none, some, List, [], ◌∷◌, ◌++◌,
  if◌then◌else◌, contains_text, lower,
}
use quant_execution.Domain.Enums.{
  TradeStatus, filled, partially_filled, rejected, closed, exit_partially_filled, exit_failed,
  PositionState, pending_entry, opened, exiting,
}
use quant_execution.Domain.Decimal.{Decimal}
use quant_execution.Domain.Records.{Position, Change, Task, AlpacaOrder}
use quant_execution.Positions.{Book, remove, modify, mark_open, release_exit, pending_and_exiting}
use quant_execution.Services.Keys.{forget}
use quant_execution.Services.World.{
  Reply, answer, refused, invalid, Answers, Call, fetch, capture, release, invalid_response, Result,
  ok, err, World, Exec, pure, raise, ◌>>=◌, ◌>>◌, gets, write, call, with_book, with_keys,
}

pub data Fill : Type 0 where
  filled_order partial_order dead_order working_order : Fill

-- `order.status.lower()` against `_ALPACA_FILLED`, `_ALPACA_PARTIAL` and `_ALPACA_DEAD`.
unfoldable pub fill_of : Text → Fill
unfolding contains_text lower
fill_of status =
    let s = lower status in
    if contains_text (codes "filled" ∷ []) s
    then filled_order
    else if contains_text (codes "partially_filled" ∷ []) s
    then partial_order
    else if contains_text
        (codes "canceled"
          ∷ codes "cancelled"
          ∷ codes "rejected"
          ∷ codes "expired"
          ∷ codes "done_for_day"
          ∷ [])
        s
    then dead_order
    else working_order

abbrev or_keep : Option Decimal → Decimal → Decimal
or_keep none d = d
or_keep (some v) d = v

-- The assignments of `_apply_entry` to the position's quantity and entry price.
abbrev pub take_fill : AlpacaOrder → Position → Position
take_fill order p = record p {
  quantity = or_keep order.filled_qty p.quantity;
  entry_price = or_keep order.filled_avg_price p.entry_price;
}

-- `_capture_hold` and `_release_hold`: a `CashServiceError` is logged only.
unfoldable pub capture_hold : Option ℕ → Exec (Unit {0})
capture_hold none = pure tt
capture_hold (some h) = call (capture h)

unfoldable pub release_hold : Option ℕ → Exec (Unit {0})
release_hold none = pure tt
release_hold (some h) = call (release h)

entry_outcome : ℕ → Position → AlpacaOrder → Fill → Exec (Unit {0})
entry_outcome now p order filled_order = do
  write (
      Task.update p.trade_id (
        Change.status filled
        ∷ Change.filled_quantity order.filled_qty
        ∷ Change.filled_avg_price order.filled_avg_price
        ∷ Change.filled_at now
        ∷ []))
  with_book (modify (take_fill order) p)
  with_book (mark_open p)
  capture_hold p.cash_hold_id
entry_outcome now p order partial_order = do
  write (
      Task.update p.trade_id (
        Change.status partially_filled
        ∷ Change.filled_quantity order.filled_qty
        ∷ Change.filled_avg_price order.filled_avg_price
        ∷ []))
entry_outcome now p order dead_order = do
  write (Task.update p.trade_id (Change.status rejected ∷ []))
  with_book (remove p)
  release_hold p.cash_hold_id
entry_outcome now p order working_order = pure tt

-- `_apply_entry`
unfoldable pub apply_entry : ℕ → Position → AlpacaOrder → Exec (Unit {0})
unfolding entry_outcome
apply_entry now p order = entry_outcome now p order (fill_of order.status)

exit_outcome : ℕ → Position → AlpacaOrder → Fill → Exec (Unit {0})
exit_outcome now p order filled_order = do
  write (
      Task.update p.trade_id (
        Change.status closed
        ∷ Change.exit_filled_quantity order.filled_qty
        ∷ Change.exit_filled_avg_price order.filled_avg_price
        ∷ Change.closed_at now
        ∷ []))
  with_book (remove p)
  with_keys (forget p.idempotency_key)
exit_outcome now p order partial_order = do
  write (
      Task.update p.trade_id (
        Change.status exit_partially_filled
        ∷ Change.exit_filled_quantity order.filled_qty
        ∷ Change.exit_filled_avg_price order.filled_avg_price
        ∷ []))
exit_outcome now p order dead_order = do
  write (Task.update p.trade_id (Change.status exit_failed ∷ []))
  with_book (release_exit p)
exit_outcome now p order working_order = pure tt

-- `_apply_exit`
unfoldable pub apply_exit : ℕ → Position → AlpacaOrder → Exec (Unit {0})
unfolding exit_outcome
apply_exit now p order = exit_outcome now p order (fill_of order.status)

fetched : Reply AlpacaOrder → Exec (Option AlpacaOrder)
fetched (answer order) = pure (some order)
fetched (refused detail) = pure none
fetched invalid = raise invalid_response

-- `_fetch`: `none` after a `BrokerError`.
unfoldable pub fetch_order : Answers → Text → Exec (Option AlpacaOrder)
unfolding fetched
fetch_order ans id = do call (fetch id); fetched (ans.get_order id)

-- `true` where the position counts as checked.
when_fetched : (AlpacaOrder → Exec (Unit {0})) → Option AlpacaOrder → Exec Bool
when_fetched f none = pure false
when_fetched f (some order) = do f order; pure true

poll : Answers → (AlpacaOrder → Exec (Unit {0})) → Option Text → Exec Bool
unfolding fetch_order when_fetched
poll ans f none = pure false
poll ans f (some id) = do when_fetched f (← fetch_order ans id)

pub reconcile_state : Answers → Position → PositionState → Exec Bool
unfolding poll apply_entry apply_exit
reconcile_state ans p pending_entry = poll ans (apply_entry ans.now p) p.broker_order_id
reconcile_state ans p exiting = poll ans (apply_exit ans.now p) p.exit_broker_order_id
reconcile_state ans p opened = pure true

-- The body of the loop of `reconcile_once`, for one position of the snapshot.
unfoldable pub reconcile_position : Answers → Position → Exec Bool
unfolding reconcile_state
reconcile_position ans p = reconcile_state ans p p.state

abbrev pub count_if : Bool → ℕ → ℕ
count_if true n = suc n
count_if false n = n

reconcile_all : Answers → ℕ → List Position → Exec ℕ
unfolding reconcile_position
reconcile_all ans n [] = pure n
reconcile_all ans n (p ∷ ps) = do
  checked ← reconcile_position ans p
  reconcile_all ans (count_if checked n) ps

-- `reconcile_once`: the number of positions that were checked.
unfoldable pub reconcile_once : Answers → Exec ℕ
unfolding reconcile_all
reconcile_once ans = do reconcile_all ans 0 (← gets (λ w. pending_and_exiting w.book))
