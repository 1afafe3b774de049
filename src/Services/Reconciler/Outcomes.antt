-- ===== src/Services/Reconciler/Outcomes.antt =====
-- Lemmas about what the reconciler does with the broker's answer about an entry or an exit.
use mathlib.Core.Option
use mathlib.Core.List.{append-nil}
use quant_execution.Base.{
  ℕ, ◌≡◌, refl, ap, ◌∙◌, false, Option, none, some, List, [], ◌∷◌, ◌++◌, text_eq_refl, nat_eq_refl,
  text_keys, nat_keys,
}
use quant_execution.Base.Dict.{Distinct}
use quant_execution.Domain.Enums.{filled, closed, exit_failed, rejected, opened}
use quant_execution.Domain.Records.{Position, Change, Task, AlpacaOrder}
use quant_execution.Positions.{
  Book, bucket_of, remove, modify, mark_open, release_exit, reopened, set_state, find,
}
use quant_execution.Positions.Entries.{find-modify, find-remove}
use quant_execution.Services.Keys.{forget}
use quant_execution.Services.Rehydrate.{is_rehydrated}
use quant_execution.Services.World.{Call, capture, release, ok, World}
use quant_execution.Services.Reconciler.{
  filled_order, dead_order, fill_of, take_fill, capture_hold, release_hold, apply_entry, apply_exit,
}

-- The calls of the cash service that settle a hold.
abbrev pub settles_by : (ℕ → Call) → Option ℕ → List Call
settles_by f none = []
settles_by f (some h) = f h ∷ []

pub capture_hold_lem :
    (h : Option ℕ) (w : World)
    → capture_hold h w ≡ (ok tt, record w { calls = w.calls ++ settles_by capture h })
unfolding capture_hold
capture_hold_lem none w = rw (append-nil w.calls)
capture_hold_lem (some h) w = refl

pub release_hold_lem :
    (h : Option ℕ) (w : World)
    → release_hold h w ≡ (ok tt, record w { calls = w.calls ++ settles_by release h })
unfolding release_hold
release_hold_lem none w = rw (append-nil w.calls)
release_hold_lem (some h) w = refl

module _ (now : ℕ) (p : Position) (order : AlpacaOrder) (w : World) where
  abbrev pub held : Book → Option Position
  held book = find p.symbol p.trade_id book

  module _ (f : Position → Position) where
    find-modify_self : (book : Book) → held (modify f p book) ≡ Option.map f (held book)
    find-modify_self book =
        find-modify f p book p.symbol p.trade_id
        ∙ rw (text_eq_refl p.symbol, nat_eq_refl p.trade_id)

  find-remove_self :
      Distinct w.book → Distinct (bucket_of p.symbol w.book) → held (remove p w.book) ≡ none
  find-remove_self keys ids =
      find-remove p w.book p.symbol p.trade_id keys ids
      ∙ rw (text_eq_refl p.symbol, nat_eq_refl p.trade_id)

  map-map_option :
      (f g : Position → Position) (o : Option Position)
      → Option.map g (Option.map f o) ≡ Option.map (λ q. g (f q)) o
  map-map_option f g none = refl
  map-map_option f g (some q) = refl

  -- A filled entry opens the position at the quantity and price of the fill, captures its hold, and
  -- marks the row filled.
  pub entry_filled :
      fill_of order.status ≡ filled_order
      → let (result, w') = apply_entry now p order w in
        (result ≡ ok tt)
        × (held w'.book ≡ Option.map (λ q. set_state opened (take_fill order q)) (held w.book))
        × (w'.calls ≡ w.calls ++ settles_by capture p.cash_hold_id)
        × (w'.tasks
            ≡ w.tasks
              ++ Task.update p.trade_id (
                  Change.status filled
                  ∷ Change.filled_quantity order.filled_qty
                  ∷ Change.filled_avg_price order.filled_avg_price
                  ∷ Change.filled_at now
                  ∷ [])
                ∷ [])
        × (w'.keys ≡ w.keys)
  unfolding apply_entry
  entry_filled fills =
      rw (fills, apply_entry)
        (rw (capture_hold_lem p.cash_hold_id) (refl, now_open, refl, refl, refl))
    where
      now_open :
          held (mark_open p (modify (take_fill order) p w.book))
          ≡ Option.map (λ q. set_state opened (take_fill order q)) (held w.book)
      now_open =
          unfold mark_open in
          find-modify_self (set_state opened) (modify (take_fill order) p w.book)
          ∙ ap (Option.map (set_state opened)) (find-modify_self (take_fill order) w.book)
          ∙ map-map_option (take_fill order) (set_state opened) (held w.book)

  -- A dead entry takes the position out of the book, releases its hold, and marks the row rejected;
  -- its key stays in use.
  pub entry_dead :
      Distinct w.book
      → Distinct (bucket_of p.symbol w.book)
      → fill_of order.status ≡ dead_order
      → let (result, w') = apply_entry now p order w in
        (result ≡ ok tt)
        × (held w'.book ≡ none)
        × (w'.calls ≡ w.calls ++ settles_by release p.cash_hold_id)
        × (w'.tasks ≡ w.tasks ++ Task.update p.trade_id (Change.status rejected ∷ []) ∷ [])
        × (w'.keys ≡ w.keys)
  unfolding apply_entry
  entry_dead keys ids dead =
      rw (dead, apply_entry)
        (rw (release_hold_lem p.cash_hold_id) (refl, find-remove_self keys ids, refl, refl, refl))

  -- A filled exit takes the position out of the book, forgets its key, and marks the row closed.
  pub exit_filled :
      Distinct w.book
      → Distinct (bucket_of p.symbol w.book)
      → fill_of order.status ≡ filled_order
      → let (result, w') = apply_exit now p order w in
        (result ≡ ok tt)
        × (held w'.book ≡ none)
        × (w'.keys ≡ forget p.idempotency_key w.keys)
        × (w'.tasks
            ≡ w.tasks
              ++ Task.update p.trade_id (
                  Change.status closed
                  ∷ Change.exit_filled_quantity order.filled_qty
                  ∷ Change.exit_filled_avg_price order.filled_avg_price
                  ∷ Change.closed_at now
                  ∷ [])
                ∷ [])
  unfolding apply_exit
  exit_filled keys ids fills = rw (fills, apply_exit) (refl, find-remove_self keys ids, refl, refl)

  -- A dead exit opens the position again, with no exit order, and marks the row EXIT_FAILED: a
  -- status whose trades are not rebuilt at startup, although the position is still open.
  pub exit_dead :
      fill_of order.status ≡ dead_order
      → let (result, w') = apply_exit now p order w in
        (result ≡ ok tt)
        × (held w'.book ≡ Option.map reopened (held w.book))
        × (w'.keys ≡ w.keys)
        × (w'.tasks ≡ w.tasks ++ Task.update p.trade_id (Change.status exit_failed ∷ []) ∷ [])
        × (is_rehydrated exit_failed ≡ false)
  unfolding apply_exit is_rehydrated
  exit_dead dead =
      rw (dead, apply_exit)
        (refl, unfold release_exit in find-modify_self reopened w.book, refl, refl, refl)
