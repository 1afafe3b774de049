-- ===== src/Services/Execution.antt =====
-- `class ExecutionService` of src/quant_execution/domain/services.py.
-- The mode decides where a position is paper; log lines are left out.
pub mod Entries
pub mod Shape
pub mod Orders
pub mod Paper
pub mod Dedup
pub mod Exits
pub mod Outcomes
pub mod Cover
use quant_execution.Base.{
  ℕ, Text, codes, ◌≡◌, Bool, true, false, Option, none, some, List, [], ◌∷◌, ◌++◌, if◌then◌else◌,
  length, text_keys,
}
use quant_execution.Base.Dict.{lookup}
use quant_execution.Domain.Enums.{
  ExecutionMode, paper, live, is_paper_mode, mode_value, entry_side, exit_side, ExitReason,
  target_price, market_close, TradeStatus, new, cash_held, submitted, filled, insufficient_funds,
  failed, exit_submitted, closed, exit_failed, pending_entry, opened,
}
use quant_execution.Domain.Decimal.{Decimal, below}
use quant_execution.Domain.Records
use quant_execution.Domain.Records.{
  Tick, WatchlistEntry, MessageMeta, Trade, Position, Change, Task, AlpacaOrder,
}
use quant_execution.Positions.{
  Book, open_position, remove, modify, release_exit, claim_exits, claim_all_open,
  position_exit_side,
}
use quant_execution.Services.Keys.{KeyState, build_idempotency_key, claim_key, forget}
use quant_execution.Services.Sizing.{Sized, sized, configuration_error, compute_sizing}
use quant_execution.Services.World.{
  Reply, answer, refused, invalid, Answers, Call, submit, read_balance, hold, release, Error,
  configuration, invalid_response, Result, ok, err, World, Service, Exec, pure, raise, ◌>>=◌, ◌>>◌,
  gets, write, call, with_book, with_keys,
}
use quant_execution.Services.CashHolds.{
  cash_failed, keep_hold, check_balance, reserve_cash, release_hold_safe,
}
use quant_execution.Services.TradeRows.{new_trade}

-- `ExecutionService.__init__`: live mode requires a cash client.
unfoldable pub make_service : Service → Bool → Option Service
make_service sv has_cash =
    if is_paper_mode sv.mode then some sv else if has_cash then some sv else none

-- The claim of the key, under `_seen_lock`.
unfoldable pub take_key : Text → Exec (Option Text)
take_key base w = (ok (claim_key base w.keys).0, record w { keys = (claim_key base w.keys).1 })

abbrev pub or_raise : Sized → Exec (Decimal × Decimal)
or_raise (sized qty notional) = pure (qty, notional)
or_raise configuration_error = raise configuration

abbrev pub sell_target : WatchlistEntry → Option Decimal
sell_target entry = some entry.sell_price

-- The paper branch of `execute`: the entry fills at once.
unfoldable pub fill_paper :
    Service → Answers → Tick → WatchlistEntry → Text → Decimal → Exec (Unit {0})
fill_paper sv ans tick entry key qty = do
  write (
      Task.update ans.new_id (
        Change.status filled
        ∷ Change.filled_quantity (some qty)
        ∷ Change.filled_avg_price (some tick.price)
        ∷ Change.filled_at ans.now
        ∷ []))
  with_book (
      open_position (record {
        trade_id = ans.new_id;
        symbol = entry.symbol;
        position_type = entry.position_type;
        quantity = qty;
        entry_price = tick.price;
        sell_price = sell_target entry;
        is_paper = true;
        idempotency_key = key;
        broker_order_id = none;
        exit_broker_order_id = none;
        cash_hold_id = none;
        state = opened;
      }))

entry_answered :
    Service
    → Answers
    → Tick
    → WatchlistEntry
    → Text
    → Decimal
    → ℕ
    → Reply AlpacaOrder
    → Exec (Unit {0})
unfolding release_hold_safe
entry_answered sv ans tick entry key qty hold_id (answer order) = do
  write (
      Task.update ans.new_id (
        Change.status submitted
        ∷ Change.broker_order_id order.id
        ∷ Change.submitted_at ans.now
        ∷ []))
  with_book (
      open_position (record {
        trade_id = ans.new_id;
        symbol = entry.symbol;
        position_type = entry.position_type;
        quantity = qty;
        entry_price = tick.price;
        sell_price = sell_target entry;
        is_paper = false;
        idempotency_key = key;
        broker_order_id = some order.id;
        exit_broker_order_id = none;
        cash_hold_id = some hold_id;
        state = pending_entry;
      }))
entry_answered sv ans tick entry key qty hold_id (refused detail) = do
  write (
      Task.update ans.new_id (
        Change.status failed
        ∷ Change.error_code (codes "BROKER_ERROR")
        ∷ Change.error_detail detail
        ∷ []))
  release_hold_safe sv (some hold_id)
entry_answered sv ans tick entry key qty hold_id invalid = raise invalid_response

-- The live branch of `execute` after the hold: the order and what its answer leads to.
unfoldable pub submit_entry :
    Service → Answers → Tick → WatchlistEntry → Text → Decimal → ℕ → Exec (Unit {0})
unfolding entry_answered
submit_entry sv ans tick entry key qty hold_id = do
  call (submit entry.symbol qty (entry_side entry.position_type) key)
  entry_answered sv ans tick entry key qty hold_id
      (ans.submit_order entry.symbol qty (entry_side entry.position_type) key)

enter_live : Service → Answers → Tick → WatchlistEntry → Text → Decimal → Option ℕ → Exec (Unit {0})
unfolding submit_entry
enter_live sv ans tick entry key qty none = pure tt
enter_live sv ans tick entry key qty (some hold_id) = submit_entry sv ans tick entry key qty hold_id

unfoldable pub enter :
    Service → Answers → Tick → WatchlistEntry → MessageMeta → Option Text → Exec (Option Trade)
unfolding fill_paper reserve_cash enter_live new_trade
enter sv ans tick entry provenance none = pure none
enter sv ans tick entry provenance (some key) = do
  (qty, notional) ← or_raise (compute_sizing tick.price sv.notional_usd sv.quantity)
  let trade = new_trade sv ans tick entry provenance key qty notional
  write (Task.insert trade)
  if is_paper_mode sv.mode
      then fill_paper sv ans tick entry key qty
      else (do enter_live sv ans tick entry key qty (← reserve_cash ans ans.new_id notional key))
  pure (some trade)

-- `execute`
unfoldable pub execute :
    Service → Answers → Tick → WatchlistEntry → MessageMeta → Exec (Option Trade)
unfolding enter take_key
execute sv ans tick entry provenance = do
  enter sv ans tick entry provenance (← take_key (build_idempotency_key sv.mode entry tick ans.now))

abbrev pub with_exit_order : AlpacaOrder → Position → Position
with_exit_order order q = record q { exit_broker_order_id = some order.id }

exit_answered : Answers → Position → ExitReason → Reply AlpacaOrder → Exec (Unit {0})
exit_answered ans p reason (answer order) = do
  with_book (modify (with_exit_order order) p)
  write (
      Task.update p.trade_id (
        Change.status exit_submitted
        ∷ Change.exit_broker_order_id order.id
        ∷ Change.exit_reason reason
        ∷ Change.exit_submitted_at ans.now
        ∷ []))
exit_answered ans p reason (refused detail) = do
  write (
      Task.update p.trade_id (
        Change.status exit_failed
        ∷ Change.error_code (codes "EXIT_BROKER_ERROR")
        ∷ Change.error_detail detail
        ∷ []))
  with_book (release_exit p)
exit_answered ans p reason invalid = raise invalid_response

unfoldable pub exit_paper : Answers → Position → Decimal → ExitReason → Exec (Unit {0})
exit_paper ans p price reason = do
  write (
      Task.update p.trade_id (
        Change.status closed
        ∷ Change.exit_reason reason
        ∷ Change.exit_submitted_at ans.now
        ∷ Change.exit_filled_quantity (some p.quantity)
        ∷ Change.exit_filled_avg_price (some price)
        ∷ Change.closed_at ans.now
        ∷ []))
  with_book (remove p)
  with_keys (forget p.idempotency_key)

abbrev pub exit_key : Position → Text
exit_key p = p.idempotency_key ++ codes ":exit"

unfoldable pub exit_live : Answers → Position → ExitReason → Exec (Unit {0})
unfolding exit_answered
exit_live ans p reason = do
  call (submit p.symbol p.quantity (position_exit_side p) (exit_key p))
  exit_answered ans p reason
      (ans.submit_order p.symbol p.quantity (position_exit_side p) (exit_key p))

-- `_submit_exit`
unfoldable pub submit_exit : Answers → Position → Decimal → ExitReason → Exec (Unit {0})
unfolding exit_paper exit_live
submit_exit ans p price reason =
    if p.is_paper then exit_paper ans p price reason else exit_live ans p reason

-- The loops of `check_exits` and `liquidate_all` over the claimed positions, each at its price.
unfoldable pub submit_exits :
    Answers → (Position → World → Decimal) → ExitReason → List Position → Exec (Unit {0})
unfolding submit_exit
submit_exits ans price reason [] = pure tt
submit_exits ans price reason (p ∷ ps) = do
  at ← gets (price p)
  submit_exit ans p at reason
  submit_exits ans price reason ps

unfoldable pub claim : (Book → Book × List Position) → Exec (List Position)
claim f w = (ok (f w.book).1, record w { book = (f w.book).0 })

-- `check_exits`
unfoldable pub check_exits : Answers → Tick → Exec (Unit {0})
unfolding submit_exits claim
check_exits ans tick = do
  ps ← claim (claim_exits tick.symbol tick.price)
  submit_exits ans (λ p w. tick.price) target_price ps

-- `self._last_price.get(position.symbol, position.entry_price)`
abbrev pub last_or_entry : Position → World → Decimal
last_or_entry p w = elim (lookup p.symbol w.last_price) [ none ↦ p.entry_price | some v ↦ v ]

-- `liquidate_all`: how many exits were submitted.
unfoldable pub liquidate_all : Answers → ExitReason → Exec ℕ
unfolding submit_exits claim
liquidate_all ans reason = do
  ps ← claim claim_all_open
  submit_exits ans last_or_entry reason ps
  pure (length ps)
