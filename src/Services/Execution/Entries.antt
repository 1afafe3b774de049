-- ===== src/Services/Execution/Entries.antt =====
-- Lemmas about `execute` and the keys, a branch at a time.
use quant_execution.Base.{ℕ, Text, Option, none, some, text_keys}
use quant_execution.Domain.Decimal.{Decimal}
use quant_execution.Domain.Records.{Tick, WatchlistEntry, MessageMeta, AlpacaOrder}
use quant_execution.Services.Sizing.{Sized, sized, configuration_error}
use quant_execution.Services.World.{Reply, answer, refused, invalid, Answers, Service}
use quant_execution.Services.World.Stays.{Stays, keys_view, keys_rules}
use quant_execution.Services.Execution.{
  or_raise, enter, enter_live, fill_paper, submit_entry, entry_answered,
}
use quant_execution.Services.CashHolds.{reserve_cash, check_balance, keep_hold}

module _ (sv : Service) (ans : Answers) (tick : Tick) (entry : WatchlistEntry) where
  entry_answered-keys :
      (key : Text) (qty : Decimal) (h : ℕ) (r : Reply AlpacaOrder)
      → Stays keys_view (entry_answered sv ans tick entry key qty h r)
  unfolding entry_answered
  entry_answered-keys key qty h (answer order) = search keys_rules
  entry_answered-keys key qty h (refused detail) = search keys_rules
  entry_answered-keys key qty h invalid = search keys_rules

  keep_hold-keys : (i : ℕ) (r : Reply ℕ) → Stays keys_view (keep_hold i r)
  unfolding keep_hold
  keep_hold-keys i (answer h) = search keys_rules
  keep_hold-keys i (refused detail) = search keys_rules
  keep_hold-keys i invalid = search keys_rules

  check_balance-keys :
      (i : ℕ) (notional : Decimal) (key : Text) (r : Reply Decimal)
      → Stays keys_view (check_balance ans i notional key r)
  unfolding check_balance
  check_balance-keys i notional key (answer b) = search (keys_rules, keep_hold-keys) depth 8
  check_balance-keys i notional key (refused detail) = search keys_rules
  check_balance-keys i notional key invalid = search keys_rules

  reserve_cash-keys :
      (i : ℕ) (notional : Decimal) (key : Text) → Stays keys_view (reserve_cash ans i notional key)
  unfolding reserve_cash
  reserve_cash-keys i notional key = search (keys_rules, check_balance-keys)

  enter_live-keys :
      (key : Text) (qty : Decimal) (h : Option ℕ)
      → Stays keys_view (enter_live sv ans tick entry key qty h)
  unfolding enter_live submit_entry
  enter_live-keys key qty none = search keys_rules
  enter_live-keys key qty (some h) = search (keys_rules, entry_answered-keys)

  fill_paper-keys :
      (key : Text) (qty : Decimal) → Stays keys_view (fill_paper sv ans tick entry key qty)
  unfolding fill_paper
  fill_paper-keys key qty = search keys_rules

  or_raise-keys : (s : Sized) → Stays keys_view (or_raise s)
  or_raise-keys (sized qty notional) = search keys_rules
  or_raise-keys configuration_error = search keys_rules

  pub enter-keys :
      (provenance : MessageMeta) (k : Option Text)
      → Stays keys_view (enter sv ans tick entry provenance k)
  unfolding enter
  enter-keys provenance none = search keys_rules
  enter-keys provenance (some key) =
      search (keys_rules, or_raise-keys, fill_paper-keys, enter_live-keys, reserve_cash-keys) depth
        12
