-- ===== src/Services/Reconciler/Lifecycle.antt =====
-- What the market-close claim finds of a position after the reconciler has applied the broker's
-- answer: `_apply_entry` and `_apply_exit` of src/quant_execution/domain/services.py, then
-- `claim_all_open` of domain/positions.py.
use mathlib.Core.Option
use quant_execution.Base.{
  ℕ, ◌≡◌, refl, ap, ◌∙◌, true, false, Option, none, some, [], ◌∷◌, ◌++◌, text_keys, nat_keys,
}
use quant_execution.Domain.Decimal.{Decimal}
use quant_execution.Domain.Enums.{exit_failed, exiting, opened, is_opened}
use quant_execution.Domain.Records.{Position, Change, Task, AlpacaOrder}
use quant_execution.Positions.{Book, claim_all_open, find, set_state, reopened}
use quant_execution.Positions.Entries.{find-claim_all_open, claim_one}
use quant_execution.Positions.Invariant.{IsWellFormed}
use quant_execution.Positions.Open.{is_among, claim_all_open-is_among}
use quant_execution.Services.Rehydrate.{is_rehydrated}
use quant_execution.Services.Reconciler.{
  filled_order, dead_order, fill_of, take_fill, apply_entry, apply_exit,
}
use quant_execution.Services.Reconciler.Outcomes.{settles_by, entry_filled, exit_dead}
use quant_execution.Services.Reconciler.Shape.{apply_entry-Keeps, apply_exit-Keeps}
use quant_execution.Services.World.{capture, ok, World}

-- The position's value in `d`, if the order has one.
abbrev pub value_or : Option Decimal → Decimal → Decimal
value_or none d = d
value_or (some v) d = v

module _ (p : Position) where
  -- The claim of a book takes the position `r`, which is left there, exiting.
  abbrev pub Claimed : Book → Position → Type 0
  Claimed book r =
      (is_among p.symbol p.trade_id (claim_all_open book).1 ≡ true)
      × (find p.symbol p.trade_id (claim_all_open book).0 ≡ some (record r { state = exiting }))

  open-Claimed :
      (book : Book) (r : Position)
      → IsWellFormed book
      → find p.symbol p.trade_id book ≡ some r
      → is_opened r.state ≡ true
      → Claimed book r
  unfolding claim_one
  open-Claimed book r ok_shape found live = (
    claim_all_open-is_among p.symbol p.trade_id r book ok_shape.buckets found live,
    find-claim_all_open p.symbol p.trade_id book ∙ rw found (rw live refl),
  )

module _ (now : ℕ) (p : Position) (order : AlpacaOrder) (w : World) (shape : IsWellFormed w.book)
    (q : Position) (there : find p.symbol p.trade_id w.book ≡ some q) where
  -- A position of a well-formed book whose entry order is filled is in the next claim of all open
  -- positions, with the quantity and the average price of the fill, where the order has them, as its
  -- quantity and entry price; its hold is captured.
  pub filled_entry_priced :
      fill_of order.status ≡ filled_order
      → let (result, w') = apply_entry now p order w in
        (result ≡ ok tt)
        × Claimed p w'.book (record q {
          quantity = value_or order.filled_qty q.quantity;
          entry_price = value_or order.filled_avg_price q.entry_price;
        })
        × (w'.calls ≡ w.calls ++ settles_by capture p.cash_hold_id)
  unfolding is_opened
  filled_entry_priced fills =
      let (returns, held, calls, tasks, keys) = entry_filled now p order w fills in
      (
        returns,
        open-Claimed p _ (set_state opened (take_fill order q))
            ((apply_entry-Keeps now p order).at w shape)
            (held ∙ ap (Option.map (λ r. set_state opened (take_fill order r))) there) refl,
        calls,
      )

  -- A position of a well-formed book whose exit order is dead is in the next claim of all open
  -- positions, with no exit order, and its row is marked EXIT_FAILED: a status whose trades are not
  -- rebuilt at startup.
  pub dead_exit_retried :
      fill_of order.status ≡ dead_order
      → let (result, w') = apply_exit now p order w in
        (result ≡ ok tt)
        × Claimed p w'.book (record q { exit_broker_order_id = none })
        × (w'.tasks ≡ w.tasks ++ Task.update p.trade_id (Change.status exit_failed ∷ []) ∷ [])
        × (is_rehydrated exit_failed ≡ false)
  unfolding is_opened
  dead_exit_retried dead =
      let (returns, held, keys, tasks, lost) = exit_dead now p order w dead in
      (
        returns,
        open-Claimed p _ (reopened q) ((apply_exit-Keeps now p order).at w shape)
            (held ∙ ap (Option.map reopened) there) refl,
        tasks,
        lost,
      )
