-- ===== src/Services/Execution/Orders.antt =====
-- The handlers of `ExecutionService`, and the orders of the positions that are being exited.
use quant_execution.Base.{
  ℕ, Text, ◌≡◌, ◌≢◌, refl, Bool, true, false, Option, none, some, List, [], ◌∷◌, if◌then◌else◌,
}
use quant_execution.Domain.Enums.{
  ExitReason, OrderSide, target_price, PositionState, pending_entry, opened, exiting,
}
use quant_execution.Domain.Decimal.{Decimal}
use quant_execution.Domain.Records.{Tick, WatchlistEntry, MessageMeta, Position, AlpacaOrder}
use quant_execution.Positions.{claim_exits, claim_all_open, release_exit, reopened}
use quant_execution.Positions.Flips.{flips-IsWellFormed}
use quant_execution.Positions.Invariant.{IsWellFormed, remove-IsWellFormed, modify-IsWellFormed}
use quant_execution.Positions.Orders.{
  ordered, Ordered, remove-Ordered, modify-Ordered, claim_exits-Ordered, claim_all_open-Ordered,
}
use quant_execution.Services.Sizing.{Sized, sized, configuration_error}
use quant_execution.Services.World.{
  Reply, answer, refused, invalid, Answers, World, Service, Exec, ok,
}
use quant_execution.Services.World.Orders.{IsSound, KeepsSound, KeepsSound-write_open, sound_rules}
use quant_execution.Services.Execution.{
  or_raise, execute, enter, enter_live, take_key, fill_paper, submit_entry, entry_answered,
  with_exit_order, exit_answered, exit_paper, exit_live, submit_exit, submit_exits, claim,
  check_exits, liquidate_all, last_or_entry,
}
use quant_execution.Services.CashHolds.{
  reserve_cash, check_balance, keep_hold, cash_failed, release_hold_safe,
}

module _ (sv : Service) (ans : Answers) (tick : Tick) (entry : WatchlistEntry) where
  release_hold_safe-KeepsSound : (h : Option ℕ) → KeepsSound (release_hold_safe sv h)
  unfolding release_hold_safe
  release_hold_safe-KeepsSound none = search sound_rules
  release_hold_safe-KeepsSound (some h) = search sound_rules

  entry_answered-KeepsSound :
      (key : Text) (qty : Decimal) (h : ℕ) (r : Reply AlpacaOrder)
      → KeepsSound (entry_answered sv ans tick entry key qty h r)
  unfolding entry_answered
  entry_answered-KeepsSound key qty h (answer order) = KeepsSound-write_open _ _ refl
  entry_answered-KeepsSound key qty h (refused detail) =
      search (sound_rules, release_hold_safe-KeepsSound)
  entry_answered-KeepsSound key qty h invalid = search sound_rules

  keep_hold-KeepsSound : (i : ℕ) (r : Reply ℕ) → KeepsSound (keep_hold i r)
  unfolding keep_hold cash_failed
  keep_hold-KeepsSound i (answer h) = search sound_rules
  keep_hold-KeepsSound i (refused detail) = search sound_rules
  keep_hold-KeepsSound i invalid = search sound_rules

  check_balance-KeepsSound :
      (i : ℕ) (notional : Decimal) (key : Text) (r : Reply Decimal)
      → KeepsSound (check_balance ans i notional key r)
  unfolding check_balance cash_failed
  check_balance-KeepsSound i notional key (answer b) =
      search (sound_rules, keep_hold-KeepsSound) depth 8
  check_balance-KeepsSound i notional key (refused detail) = search sound_rules
  check_balance-KeepsSound i notional key invalid = search sound_rules

  reserve_cash-KeepsSound :
      (i : ℕ) (notional : Decimal) (key : Text) → KeepsSound (reserve_cash ans i notional key)
  unfolding reserve_cash
  reserve_cash-KeepsSound i notional key = search (sound_rules, check_balance-KeepsSound)

  enter_live-KeepsSound :
      (key : Text) (qty : Decimal) (h : Option ℕ)
      → KeepsSound (enter_live sv ans tick entry key qty h)
  unfolding enter_live submit_entry
  enter_live-KeepsSound key qty none = search sound_rules
  enter_live-KeepsSound key qty (some h) = search (sound_rules, entry_answered-KeepsSound)

  fill_paper-KeepsSound :
      (key : Text) (qty : Decimal) → KeepsSound (fill_paper sv ans tick entry key qty)
  unfolding fill_paper
  fill_paper-KeepsSound key qty = KeepsSound-write_open _ _ refl

  or_raise-KeepsSound : (s : Sized) → KeepsSound (or_raise s)
  or_raise-KeepsSound (sized qty notional) = search sound_rules
  or_raise-KeepsSound configuration_error = search sound_rules

  take_key-KeepsSound : (base : Text) → KeepsSound (take_key base)
  unfolding take_key
  take_key-KeepsSound base = record { at = λ w h. h }

  enter-KeepsSound :
      (provenance : MessageMeta) (k : Option Text)
      → KeepsSound (enter sv ans tick entry provenance k)
  unfolding enter
  enter-KeepsSound provenance none = search sound_rules
  enter-KeepsSound provenance (some key) =
      search
        (
          sound_rules, or_raise-KeepsSound, fill_paper-KeepsSound, enter_live-KeepsSound,
          reserve_cash-KeepsSound,
        )
        depth 12

  pub execute-KeepsSound :
      (provenance : MessageMeta) → KeepsSound (execute sv ans tick entry provenance)
  unfolding execute
  execute-KeepsSound provenance = search (sound_rules, take_key-KeepsSound, enter-KeepsSound)

-- Every answer to an exit order can be read.
abbrev pub ReadsExits : Answers → Type 0
ReadsExits ans =
    (symbol : Text) (quantity : Decimal) (side : OrderSide) (key : Text)
    → ans.submit_order symbol quantity side key ≢ invalid

module _ (ans : Answers) (reads : ReadsExits ans) where
  -- The exit of a claimed position returns, and the position is out of the book, has an order, or
  -- is open again.
  record Exits (p : Position) (m : Exec (Unit {0})) : Type 0 where
    at :
        (ps : List Position) (w : World)
        → IsWellFormed w.book
        → Ordered (p ∷ ps) w.book
        → ((m w).0 ≡ ok tt) × IsWellFormed (m w).1.book × Ordered ps (m w).1.book

  exit_answered-Exits :
      (p : Position) (reason : ExitReason) (r : Reply AlpacaOrder)
      → r ≢ invalid
      → Exits p (exit_answered ans p reason r)
  unfolding exit_answered release_exit
  exit_answered-Exits p reason (answer order) readable = record {
    at = λ ps w shape h. (
      refl,
      modify-IsWellFormed (with_exit_order order) (λ q. (refl, refl)) p w.book shape,
      modify-Ordered (with_exit_order order) p ps w.book (λ q. placed q.state) h,
    );
  }
    where
      placed : (st : PositionState) → ordered st (some order.id) ≡ true
      placed pending_entry = refl
      placed opened = refl
      placed exiting = refl
  exit_answered-Exits p reason (refused detail) readable = record {
    at = λ ps w shape h. (
      refl,
      modify-IsWellFormed reopened (λ q. (refl, refl)) p w.book shape,
      modify-Ordered reopened p ps w.book (λ q. refl) h,
    );
  }
  exit_answered-Exits p reason invalid readable = absurd (readable refl)

  submit_exit-Exits :
      (p : Position) (price : Decimal) (reason : ExitReason)
      → Exits p (submit_exit ans p price reason)
  unfolding submit_exit exit_paper exit_live
  submit_exit-Exits p price reason = pick p.is_paper
    where
      pick :
          (b : Bool) → Exits p (if b then exit_paper ans p price reason else exit_live ans p reason)
      pick true = record {
        at = λ ps w shape h.
            (refl, remove-IsWellFormed p w.book shape, remove-Ordered p ps w.book shape h);
      }
      pick false = record {
        at = λ ps w shape h. (exit_answered-Exits p reason _ (reads _ _ _ _)).at ps _ shape h;
      }

  submit_exits-Sound :
      (price : Position → World → Decimal) (reason : ExitReason) (ps : List Position) (w : World)
      → IsWellFormed w.book
      → Ordered ps w.book
      → ((submit_exits ans price reason ps w).0 ≡ ok tt)
        × IsSound (submit_exits ans price reason ps w).1.book
  unfolding submit_exits
  submit_exits-Sound price reason [] w shape h = (refl, record { shape = shape; orders = h })
  submit_exits-Sound price reason (p ∷ ps) w shape h =
      let (returns, kept, rest) = (submit_exit-Exits p (price p w) reason).at ps w shape h in
      rw returns (submit_exits-Sound price reason ps _ kept rest)

  pub check_exits-Sound : (tick : Tick) → KeepsSound (check_exits ans tick)
  unfolding check_exits claim
  check_exits-Sound tick = record {
    at = λ w h.
        (submit_exits-Sound (λ p u. tick.price) target_price _
          (record w { book = (claim_exits tick.symbol tick.price w.book).0 })
          ((flips-IsWellFormed w.book h.shape).0 tick.symbol tick.price)
          (claim_exits-Ordered tick.symbol tick.price w.book h.shape h.orders)).1;
  }

  pub liquidate_all-Sound : (reason : ExitReason) → KeepsSound (liquidate_all ans reason)
  unfolding liquidate_all claim
  liquidate_all-Sound reason = record {
    at = λ w h.
        let done =
          submit_exits-Sound last_or_entry reason _ (record w { book = (claim_all_open w.book).0 })
            (flips-IsWellFormed w.book h.shape).1
            (claim_all_open-Ordered w.book h.shape h.orders) in
        rw done.0 done.1;
  }
