-- ===== src/Services/Execution/Exits.antt =====
-- Lemmas about `_submit_exit` for each answer of the broker.
use mathlib.Core.Option
use quant_execution.Base.{
  ℕ, ◌+◌, Text, codes, ◌≡◌, ◌≢◌, refl, ◌∙◌, Bool, true, false, none, some, [], ◌∷◌, ◌++◌, arith,
  text_eq_refl, nat_eq_refl, text_keys, nat_keys,
}
use quant_execution.Domain.Enums.{
  ExecutionMode, ExitReason, exit_side, closed, exit_failed, exiting, is_opened,
}
use quant_execution.Domain.Decimal.{Decimal}
use quant_execution.Domain.Records.{Tick, WatchlistEntry, Position, Change, Task, AlpacaOrder}
use quant_execution.Positions.{remove, modify, release_exit, find, reopened, position_exit_side}
use quant_execution.Positions.Entries.{find-modify, claim_one}
use quant_execution.Services.Keys.{KeyState, compose_key, build_idempotency_key, attempt_of, forget}
use quant_execution.Services.Keys.Apart.{exit_suffix_apart}
use quant_execution.Services.Keys.Attempts.{IsBase, split-compose}
use quant_execution.Services.Keys.Ledger.{attempt_of-forget}
use quant_execution.Services.World.{
  Reply, answer, refused, invalid, Answers, submit, invalid_response, ok, err, World,
}
use quant_execution.Services.Execution.{submit_exit, exit_key, with_exit_order}
use quant_execution.Services.Reconciler.{reconcile_position}

module _ (ans : Answers) (p : Position) (price : Decimal) (reason : ExitReason) (w : World) where
  -- A paper exit closes the row at the exit price, takes the position out of the book, forgets its
  -- key, and places no order.
  pub paper_exit :
      p.is_paper ≡ true
      → submit_exit ans p price reason w ≡ (
        ok tt,
        record w {
          keys = forget p.idempotency_key w.keys;
          book = remove p w.book;
          tasks =
              w.tasks
              ++ Task.update p.trade_id (
                  Change.status closed
                  ∷ Change.exit_reason reason
                  ∷ Change.exit_submitted_at ans.now
                  ∷ Change.exit_filled_quantity (some p.quantity)
                  ∷ Change.exit_filled_avg_price (some price)
                  ∷ Change.closed_at ans.now
                  ∷ [])
                ∷ [];
        },
      )
  unfolding submit_exit
  paper_exit on_paper = simp on_paper

  -- A live exit that the broker refuses is marked, and the position is open again, with no exit
  -- order, so that a later claim takes it; the keys are left alone.
  pub live_exit_refused :
      (detail : Text)
      → p.is_paper ≡ false
      → ans.submit_order p.symbol p.quantity (position_exit_side p) (exit_key p) ≡ refused detail
      → let (result, w') = submit_exit ans p price reason w in
        (result ≡ ok tt)
        × (find p.symbol p.trade_id w'.book ≡ Option.map reopened (find p.symbol p.trade_id w.book))
        × (w'.keys ≡ w.keys)
        × (w'.tasks
            ≡ w.tasks
              ++ Task.update p.trade_id (
                  Change.status exit_failed
                  ∷ Change.error_code (codes "EXIT_BROKER_ERROR")
                  ∷ Change.error_detail detail
                  ∷ [])
                ∷ [])
  unfolding submit_exit
  live_exit_refused detail live refuses = simp live (simp refuses (refl, open_again, refl, refl))
    where
      open_again :
          find p.symbol p.trade_id (release_exit p w.book)
          ≡ Option.map reopened (find p.symbol p.trade_id w.book)
      open_again =
          unfold release_exit in
          find-modify _ p w.book p.symbol p.trade_id
          ∙ rw (text_eq_refl p.symbol, nat_eq_refl p.trade_id)

  -- A live exit that the broker accepts places one order under the position's exit key, gives the
  -- position that order's id, and leaves the keys alone.
  pub live_exit_placed :
      (order : AlpacaOrder)
      → p.is_paper ≡ false
      → ans.submit_order p.symbol p.quantity (position_exit_side p) (exit_key p) ≡ answer order
      → let (result, w') = submit_exit ans p price reason w in
        (result ≡ ok tt)
        × (find p.symbol p.trade_id w'.book
            ≡ Option.map (with_exit_order order) (find p.symbol p.trade_id w.book))
        × (w'.keys ≡ w.keys)
        × (w'.calls
            ≡ w.calls ++ submit p.symbol p.quantity (position_exit_side p) (exit_key p) ∷ [])
  unfolding submit_exit
  live_exit_placed order live places = simp live (simp places (refl, waiting, refl, refl))
    where
      waiting :
          find p.symbol p.trade_id (modify (with_exit_order order) p w.book)
          ≡ Option.map (with_exit_order order) (find p.symbol p.trade_id w.book)
      waiting =
          find-modify _ p w.book p.symbol p.trade_id
          ∙ rw (text_eq_refl p.symbol, nat_eq_refl p.trade_id)

  exit_calls :
      (r : Reply AlpacaOrder)
      → p.is_paper ≡ false
      → ans.submit_order p.symbol p.quantity (position_exit_side p) (exit_key p) ≡ r
      → (submit_exit ans p price reason w).1.calls
        ≡ w.calls ++ submit p.symbol p.quantity (position_exit_side p) (exit_key p) ∷ []
  unfolding submit_exit
  exit_calls (answer order) on_live e = simp on_live (simp e refl)
  exit_calls (refused detail) on_live e = simp on_live (simp e refl)
  exit_calls invalid on_live e = simp on_live (simp e refl)

  -- Whatever the broker answers, the exit of a live position places exactly one order, for the
  -- quantity of the position, on the side that closes it and under an id that is the id of no entry
  -- order, of whatever signal and attempt.
  pub exit_order_apart :
      (mode : ExecutionMode) (entry : WatchlistEntry) (tick : Tick) (now attempt : ℕ)
      → p.is_paper ≡ false
      → (id : Text) × ((submit_exit ans p price reason w).1.calls
          ≡ w.calls ++ submit p.symbol p.quantity (exit_side p.position_type) id ∷ [])
        × (id ≢ compose_key (build_idempotency_key mode entry tick now) attempt)
  unfolding position_exit_side
  exit_order_apart mode entry tick now attempt live = (
    exit_key p,
    exit_calls _ live refl,
    exit_suffix_apart p.idempotency_key mode entry tick now attempt,
  )

-- If the broker's answer to an exit order cannot be read, the position stays EXITING with no exit
-- order: the handler raises, no later claim takes it, and no reconciliation polls or changes it.
pub unread_exit_sticks :
    (ans later : Answers) (p : Position) (price : Decimal) (reason : ExitReason) (w w' : World)
    (test : Position → Bool)
    → p.is_paper ≡ false
    → p.state ≡ exiting
    → p.exit_broker_order_id ≡ none
    → ans.submit_order p.symbol p.quantity (position_exit_side p) (exit_key p) ≡ invalid
    → let (result, after) = submit_exit ans p price reason w in
      (result ≡ err invalid_response)
      × (after.book ≡ w.book)
      × (claim_one test p ≡ p)
      × (reconcile_position later p w' ≡ (ok false, w'))
unfolding submit_exit claim_one reconcile_position is_opened
unread_exit_sticks ans later p price reason w w' test live state no_order unread =
    (simp live (simp unread), simp live (simp unread), ground arith, ground arith)

-- Once the key of an attempt is forgotten, the signal's next key is that of the next attempt.
pub attempt_after_forget :
    (base : Text) (attempt : ℕ) (ks : KeyState)
    → IsBase base
    → attempt_of base (forget (compose_key base attempt) ks) ≡ attempt + 1
attempt_after_forget base attempt ks plain =
    attempt_of-forget (compose_key base attempt) base ks
    ∙ rw (split-compose base attempt plain) (rw (text_eq_refl base))
