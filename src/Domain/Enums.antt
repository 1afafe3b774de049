-- ===== src/Domain/Enums.antt =====
-- src/quant_execution/domain/enums.py, and the states of a position (domain/positions.py).
use quant_execution.Base.{Bool, true, false, Text, codes, ◌≡◌, refl, ◌≢◌, arith}

pub data ExecutionMode : Type 0 where
  paper live : ExecutionMode

-- `ExecutionMode.value`
unfoldable pub mode_value : ExecutionMode → Text
mode_value paper = codes "paper"
mode_value live = codes "live"

-- `ExecutionMode.is_paper`
unfoldable pub is_paper_mode : ExecutionMode → Bool
is_paper_mode paper = true
is_paper_mode live = false

pub data OrderSide : Type 0 where
  buy sell : OrderSide

pub data PositionType : Type 0 where
  long short : PositionType

unfoldable pub entry_side : PositionType → OrderSide
entry_side long = buy
entry_side short = sell

unfoldable pub exit_side : PositionType → OrderSide
exit_side long = sell
exit_side short = buy

pub data ExitReason : Type 0 where
  target_price market_close : ExitReason

pub data TradeStatus : Type 0 where
  new cash_held submitted partially_filled filled rejected insufficient_funds failed : TradeStatus
  exit_submitted exit_partially_filled closed exit_failed : TradeStatus

-- `OrderSide.value`
unfoldable pub side_value : OrderSide → Text
side_value buy = codes "BUY"
side_value sell = codes "SELL"

-- `PositionType.value`
unfoldable pub type_value : PositionType → Text
type_value long = codes "LONG"
type_value short = codes "SHORT"

-- `ExitReason.value`
unfoldable pub reason_value : ExitReason → Text
reason_value target_price = codes "TARGET_PRICE"
reason_value market_close = codes "MARKET_CLOSE"

-- `TradeStatus.value`
unfoldable pub status_value : TradeStatus → Text
status_value new = codes "NEW"
status_value cash_held = codes "CASH_HELD"
status_value submitted = codes "SUBMITTED"
status_value partially_filled = codes "PARTIALLY_FILLED"
status_value filled = codes "FILLED"
status_value rejected = codes "REJECTED"
status_value insufficient_funds = codes "INSUFFICIENT_FUNDS"
status_value failed = codes "FAILED"
status_value exit_submitted = codes "EXIT_SUBMITTED"
status_value exit_partially_filled = codes "EXIT_PARTIALLY_FILLED"
status_value closed = codes "CLOSED"
status_value exit_failed = codes "EXIT_FAILED"

-- `opened` is `PositionState.OPEN`.
pub data PositionState : Type 0 where
  pending_entry opened exiting : PositionState

unfoldable pub is_opened : PositionState → Bool
is_opened opened = true
is_opened _ = false

unfoldable pub is_exiting : PositionState → Bool
is_exiting exiting = true
is_exiting _ = false

pub is_opened→eq : (s : PositionState) → is_opened s ≡ true → s ≡ opened
unfolding is_opened
is_opened→eq pending_entry h = cc
is_opened→eq opened h = refl
is_opened→eq exiting h = cc

-- The order that closes a position goes the other way than the one that opened it.
pub exit_side-ne-entry_side : (t : PositionType) → exit_side t ≢ entry_side t
unfolding exit_side entry_side
exit_side-ne-entry_side long = ground arith
exit_side-ne-entry_side short = ground arith
