-- ===== src/Services/CashHolds.antt =====
-- `_reserve_cash` and `_release_hold_safe` of src/quant_execution/domain/services.py.
use quant_execution.Base.{ℕ, Text, codes, Option, none, some, [], ◌∷◌, if◌then◌else◌, text_keys}
use quant_execution.Domain.Enums.{is_paper_mode, cash_held, insufficient_funds, failed}
use quant_execution.Domain.Decimal.{Decimal, below}
use quant_execution.Domain.Records.{Change, Task}
use quant_execution.Services.World.{
  Reply, answer, refused, invalid, Answers, read_balance, hold, release, invalid_response, Service,
  Exec, pure, raise, ◌>>◌, write, call,
}

unfoldable pub cash_failed : ℕ → Text → Exec (Option ℕ)
cash_failed trade_id detail = do
  write (
      Task.update trade_id (
        Change.status failed
        ∷ Change.error_code (codes "CASH_ERROR")
        ∷ Change.error_detail detail
        ∷ []))
  pure none

unfoldable pub keep_hold : ℕ → Reply ℕ → Exec (Option ℕ)
unfolding cash_failed
keep_hold trade_id (answer h) = do
  write (Task.update trade_id (Change.status cash_held ∷ Change.cash_hold_id h ∷ []))
  pure (some h)
keep_hold trade_id (refused detail) = cash_failed trade_id detail
keep_hold trade_id invalid = raise invalid_response

unfoldable pub check_balance : Answers → ℕ → Decimal → Text → Reply Decimal → Exec (Option ℕ)
unfolding keep_hold cash_failed
check_balance ans trade_id notional key (answer balance) =
    if below balance notional
    then (do write (Task.update trade_id (Change.status insufficient_funds ∷ [])); pure none)
    else (do call (hold notional key); keep_hold trade_id (ans.place_hold notional key))
check_balance ans trade_id notional key (refused detail) = cash_failed trade_id detail
check_balance ans trade_id notional key invalid = raise invalid_response

-- `_reserve_cash`: the id of the hold, or `none` where the entry ends here.
unfoldable pub reserve_cash : Answers → ℕ → Decimal → Text → Exec (Option ℕ)
unfolding check_balance
reserve_cash ans trade_id notional key = do
  call read_balance
  check_balance ans trade_id notional key ans.available_balance

-- `_release_hold_safe` in live mode: a `CashServiceError` is logged only.
unfoldable pub release_hold_safe : Service → Option ℕ → Exec (Unit {0})
release_hold_safe sv none = pure tt
release_hold_safe sv (some h) = if is_paper_mode sv.mode then pure tt else call (release h)
