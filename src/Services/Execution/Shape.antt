-- ===== src/Services/Execution/Shape.antt =====
-- Lemmas about the handlers of `ExecutionService` and the shape of the book.
use quant_execution.Base.{ℕ, Text, refl, Option, none, some, List, [], ◌∷◌}
use quant_execution.Domain.Enums.{ExitReason}
use quant_execution.Domain.Decimal.{Decimal}
use quant_execution.Domain.Records.{Tick, WatchlistEntry, MessageMeta, Position, AlpacaOrder}
use quant_execution.Positions.{claim_exits, claim_all_open}
use quant_execution.Positions.Flips.{flips-IsWellFormed}
use quant_execution.Services.Sizing.{Sized, sized, configuration_error}
use quant_execution.Services.World.{Reply, answer, refused, invalid, Answers, World, Service}
use quant_execution.Services.World.Shape.{Keeps, Keeps-bind, Keeps-gets, Keeps-modify, shape_rules}
use quant_execution.Services.Execution.{
  or_raise, execute, enter, enter_live, take_key, fill_paper, submit_entry, entry_answered,
  with_exit_order, exit_answered, exit_paper, exit_live, submit_exit, submit_exits, claim,
  check_exits, liquidate_all,
}
use quant_execution.Services.CashHolds.{
  reserve_cash, check_balance, keep_hold, cash_failed, release_hold_safe,
}

module _ (sv : Service) (ans : Answers) (tick : Tick) (entry : WatchlistEntry) where
  release_hold_safe-Keeps : (h : Option ℕ) → Keeps (release_hold_safe sv h)
  unfolding release_hold_safe
  release_hold_safe-Keeps none = search shape_rules
  release_hold_safe-Keeps (some h) = search shape_rules

  entry_answered-Keeps :
      (key : Text) (qty : Decimal) (h : ℕ) (r : Reply AlpacaOrder)
      → Keeps (entry_answered sv ans tick entry key qty h r)
  unfolding entry_answered
  entry_answered-Keeps key qty h (answer order) = search shape_rules
  entry_answered-Keeps key qty h (refused detail) = search (shape_rules, release_hold_safe-Keeps)
  entry_answered-Keeps key qty h invalid = search shape_rules

  keep_hold-Keeps : (i : ℕ) (r : Reply ℕ) → Keeps (keep_hold i r)
  unfolding keep_hold cash_failed
  keep_hold-Keeps i (answer h) = search shape_rules
  keep_hold-Keeps i (refused detail) = search shape_rules
  keep_hold-Keeps i invalid = search shape_rules

  check_balance-Keeps :
      (i : ℕ) (notional : Decimal) (key : Text) (r : Reply Decimal)
      → Keeps (check_balance ans i notional key r)
  unfolding check_balance cash_failed
  check_balance-Keeps i notional key (answer b) = search (shape_rules, keep_hold-Keeps) depth 8
  check_balance-Keeps i notional key (refused detail) = search shape_rules
  check_balance-Keeps i notional key invalid = search shape_rules

  reserve_cash-Keeps :
      (i : ℕ) (notional : Decimal) (key : Text) → Keeps (reserve_cash ans i notional key)
  unfolding reserve_cash
  reserve_cash-Keeps i notional key = search (shape_rules, check_balance-Keeps)

  enter_live-Keeps :
      (key : Text) (qty : Decimal) (h : Option ℕ) → Keeps (enter_live sv ans tick entry key qty h)
  unfolding enter_live submit_entry
  enter_live-Keeps key qty none = search shape_rules
  enter_live-Keeps key qty (some h) = search (shape_rules, entry_answered-Keeps)

  fill_paper-Keeps : (key : Text) (qty : Decimal) → Keeps (fill_paper sv ans tick entry key qty)
  unfolding fill_paper
  fill_paper-Keeps key qty = search shape_rules

  or_raise-Keeps : (s : Sized) → Keeps (or_raise s)
  or_raise-Keeps (sized qty notional) = search shape_rules
  or_raise-Keeps configuration_error = search shape_rules

  take_key-Keeps : (base : Text) → Keeps (take_key base)
  unfolding take_key
  take_key-Keeps base = record { at = λ w h. h }

  enter-Keeps :
      (provenance : MessageMeta) (k : Option Text) → Keeps (enter sv ans tick entry provenance k)
  unfolding enter
  enter-Keeps provenance none = search shape_rules
  enter-Keeps provenance (some key) =
      search (shape_rules, or_raise-Keeps, fill_paper-Keeps, enter_live-Keeps, reserve_cash-Keeps)
        depth 12

  pub execute-Keeps : (provenance : MessageMeta) → Keeps (execute sv ans tick entry provenance)
  unfolding execute
  execute-Keeps provenance = search (shape_rules, take_key-Keeps, enter-Keeps)

module _ (ans : Answers) where
  exit_answered-Keeps :
      (p : Position) (reason : ExitReason) (r : Reply AlpacaOrder)
      → Keeps (exit_answered ans p reason r)
  unfolding exit_answered
  exit_answered-Keeps p reason (answer order) =
      search (shape_rules, Keeps-modify (with_exit_order order) p (λ q. (refl, refl)))
  exit_answered-Keeps p reason (refused detail) = search shape_rules
  exit_answered-Keeps p reason invalid = search shape_rules

  submit_exit-Keeps :
      (p : Position) (price : Decimal) (reason : ExitReason)
      → Keeps (submit_exit ans p price reason)
  unfolding submit_exit exit_paper exit_live
  submit_exit-Keeps p price reason = search (shape_rules, exit_answered-Keeps) depth 10

  submit_exits-Keeps :
      (price : Position → World → Decimal) (reason : ExitReason) (ps : List Position)
      → Keeps (submit_exits ans price reason ps)
  unfolding submit_exits
  submit_exits-Keeps price reason [] = search shape_rules
  submit_exits-Keeps price reason (p ∷ ps) = Keeps-bind _ _ (Keeps-gets (price p)) (λ at.
      Keeps-bind _ _ (submit_exit-Keeps p at reason) (λ u. submit_exits-Keeps price reason ps))

  claim_exits-Keeps : (s : Text) (price : Decimal) → Keeps (claim (claim_exits s price))
  unfolding claim
  claim_exits-Keeps s price = record { at = λ w h. (flips-IsWellFormed w.book h).0 s price }

  claim_all_open-Keeps : Keeps (claim claim_all_open)
  unfolding claim
  claim_all_open-Keeps = record { at = λ w h. (flips-IsWellFormed w.book h).1 }

  pub check_exits-Keeps : (tick : Tick) → Keeps (check_exits ans tick)
  unfolding check_exits
  check_exits-Keeps tick = search (shape_rules, claim_exits-Keeps, submit_exits-Keeps)

  pub liquidate_all-Keeps : (reason : ExitReason) → Keeps (liquidate_all ans reason)
  unfolding liquidate_all
  liquidate_all-Keeps reason = search (shape_rules, claim_all_open-Keeps, submit_exits-Keeps)
