-- ===== src/Services/Execution/Outcomes.antt =====
-- Lemmas about the branches of `execute` after the key is taken.
use quant_execution.Base.{
  ℕ, Text, codes, ◌≡◌, Bool, true, false, Option, none, some, List, [], ◌∷◌, ◌++◌, if◌then◌else◌,
}
use quant_execution.Domain.Enums.{
  is_paper_mode, filled, insufficient_funds, failed, cash_held, submitted, entry_side, opened,
  pending_entry,
}
use quant_execution.Domain.Decimal.{Decimal, below}
use quant_execution.Domain.Records.{
  Tick, WatchlistEntry, MessageMeta, Trade, Position, Change, Task, AlpacaOrder,
}
use quant_execution.Positions.{open_position}
use quant_execution.Services.Sizing.{sized, compute_sizing}
use quant_execution.Services.World.{
  answer, refused, invalid, Answers, Call, read_balance, hold, submit, release, invalid_response,
  ok, err, World, Service,
}
use quant_execution.Services.Execution.{enter}
use quant_execution.Services.TradeRows.{new_trade}

module _ (sv : Service) (ans : Answers) (tick : Tick) (entry : WatchlistEntry)
    (provenance : MessageMeta) (key : Text) (w : World) (qty notional : Decimal)
    (sizes : compute_sizing tick.price sv.notional_usd sv.quantity ≡ sized qty notional) where
  abbrev pub trade : Trade
  trade = new_trade sv ans tick entry provenance key qty notional

  -- The position that an entry opens.
  abbrev pub entered : Bool → Option Text → Option ℕ → Position
  entered on_paper order_id hold_id = record {
    trade_id = ans.new_id;
    symbol = entry.symbol;
    position_type = entry.position_type;
    quantity = qty;
    entry_price = tick.price;
    sell_price = some entry.sell_price;
    is_paper = on_paper;
    idempotency_key = key;
    broker_order_id = order_id;
    exit_broker_order_id = none;
    cash_hold_id = hold_id;
    state = if on_paper then opened else pending_entry;
  }

  -- A paper entry inserts its row, marks it filled at the trigger price, opens the position, and
  -- calls neither the broker nor the cash service.
  pub paper_entry :
      is_paper_mode sv.mode ≡ true
      → enter sv ans tick entry provenance (some key) w ≡ (
        ok (some trade),
        record w {
          book = open_position (entered true none none) w.book;
          tasks =
              (w.tasks ++ Task.insert trade ∷ [])
              ++ Task.update ans.new_id (
                  Change.status filled
                  ∷ Change.filled_quantity (some qty)
                  ∷ Change.filled_avg_price (some tick.price)
                  ∷ Change.filled_at ans.now
                  ∷ [])
                ∷ [];
        },
      )
  unfolding enter
  paper_entry mode = rw (sizes, enter) (rw mode)

  -- In live mode a balance below the notional ends the entry: the row is marked, nothing is held,
  -- no order is placed and no position is opened.
  pub live_entry_short :
      (balance : Decimal)
      → is_paper_mode sv.mode ≡ false
      → ans.available_balance ≡ answer balance
      → below balance notional ≡ true
      → enter sv ans tick entry provenance (some key) w ≡ (
        ok (some trade),
        record w {
          tasks =
              (w.tasks ++ Task.insert trade ∷ [])
              ++ Task.update ans.new_id (Change.status insufficient_funds ∷ []) ∷ [];
          calls = w.calls ++ read_balance ∷ [];
        },
      )
  unfolding enter
  live_entry_short balance mode reads short = rw (sizes, enter) (rw mode (rw reads (rw short)))

  abbrev pub rows_until_held : ℕ → List Task
  rows_until_held h =
      (w.tasks ++ Task.insert trade ∷ [])
      ++ Task.update ans.new_id (Change.status cash_held ∷ Change.cash_hold_id h ∷ []) ∷ []

  abbrev pub calls_until_order : List Call
  calls_until_order =
      ((w.calls ++ read_balance ∷ []) ++ hold notional key ∷ [])
      ++ submit entry.symbol qty (entry_side entry.position_type) key ∷ []

  -- A covered live entry reads the balance, holds the notional under the key and only then places
  -- the order, with the key as its client id; the position waits for the fill.
  pub live_entry_placed :
      (balance : Decimal) (h : ℕ) (order : AlpacaOrder)
      → is_paper_mode sv.mode ≡ false
      → ans.available_balance ≡ answer balance
      → below balance notional ≡ false
      → ans.place_hold notional key ≡ answer h
      → ans.submit_order entry.symbol qty (entry_side entry.position_type) key ≡ answer order
      → enter sv ans tick entry provenance (some key) w ≡ (
        ok (some trade),
        record w {
          book = open_position (entered false (some order.id) (some h)) w.book;
          tasks =
              rows_until_held h
              ++ Task.update ans.new_id (
                  Change.status submitted
                  ∷ Change.broker_order_id order.id
                  ∷ Change.submitted_at ans.now
                  ∷ [])
                ∷ [];
          calls = calls_until_order;
        },
      )
  unfolding enter
  live_entry_placed balance h order mode reads covers holds places =
      rw (sizes, enter) (rw mode (rw reads (rw covers (rw holds (rw places)))))

  -- If the broker refuses the order, the row is marked failed, the hold is released and no position
  -- is opened.
  pub live_entry_refused :
      (balance : Decimal) (h : ℕ) (detail : Text)
      → is_paper_mode sv.mode ≡ false
      → ans.available_balance ≡ answer balance
      → below balance notional ≡ false
      → ans.place_hold notional key ≡ answer h
      → ans.submit_order entry.symbol qty (entry_side entry.position_type) key ≡ refused detail
      → enter sv ans tick entry provenance (some key) w ≡ (
        ok (some trade),
        record w {
          tasks =
              rows_until_held h
              ++ Task.update ans.new_id (
                  Change.status failed
                  ∷ Change.error_code (codes "BROKER_ERROR")
                  ∷ Change.error_detail detail
                  ∷ [])
                ∷ [];
          calls = calls_until_order ++ release h ∷ [];
        },
      )
  unfolding enter
  live_entry_refused balance h detail mode reads covers holds refuses =
      rw (sizes, enter) (rw mode (rw reads (rw covers (rw holds (rw refuses (rw mode))))))

  -- If the broker's answer to a placed order cannot be read, `execute` raises: the order is placed
  -- and the hold stands, and yet no position is opened and the row stays at CASH_HELD.
  pub live_entry_unread :
      (balance : Decimal) (h : ℕ)
      → is_paper_mode sv.mode ≡ false
      → ans.available_balance ≡ answer balance
      → below balance notional ≡ false
      → ans.place_hold notional key ≡ answer h
      → ans.submit_order entry.symbol qty (entry_side entry.position_type) key ≡ invalid
      → enter sv ans tick entry provenance (some key) w
        ≡ (err invalid_response, record w { tasks = rows_until_held h; calls = calls_until_order })
  unfolding enter
  live_entry_unread balance h mode reads covers holds unread =
      rw (sizes, enter) (rw mode (rw reads (rw covers (rw holds (rw unread)))))
