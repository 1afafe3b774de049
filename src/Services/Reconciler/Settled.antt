-- ===== src/Services/Reconciler/Settled.antt =====
-- What a round of the reconciler, `reconcile_once` of src/quant_execution/domain/services.py, does
-- when the broker's answers are final.
use mathlib.Core.List.{append-nil, append_assoc}
use quant_execution.Base.{
  sym, ◌++◌, ℕ, suc, ◌+◌, Text, ◌≡◌, refl, ap, ◌∙◌, Bool, true, false, Option, none, some, List, [],
  ◌∷◌, arith, length, All,
}
use quant_execution.Domain.Enums.{PositionState, pending_entry, opened, exiting, is_opened}
use quant_execution.Domain.Records.{Position, AlpacaOrder}
use quant_execution.Positions.{pending_and_exiting, mark_open, release_exit}
use quant_execution.Positions.Awaiting.{
  pending_and_exiting-OpenBut, OpenBut-none_await, modify-OpenBut, modify-OpenBut_same,
}
use quant_execution.Positions.Invariant.{IsWellFormed}
use quant_execution.Positions.Open.{OpenBut, remove-OpenBut}
use quant_execution.Services.Reconciler.{
  Fill, filled_order, partial_order, dead_order, working_order, fill_of, take_fill, entry_outcome,
  apply_entry, exit_outcome, apply_exit, fetched, fetch_order, when_fetched, poll, reconcile_state,
  reconcile_position, reconcile_all, reconcile_once,
}
use quant_execution.Services.Reconciler.Outcomes.{settles_by, capture_hold_lem, release_hold_lem}
use quant_execution.Services.Reconciler.Shape.{reconcile_state-Keeps, reconcile_once-Keeps}
use quant_execution.Services.World.{
  Reply, answer, refused, invalid, Answers, Call, fetch, capture, release, ok, World, Exec, ◌>>=◌,
}

-- The order is done: it is filled, or dead.
abbrev pub is_final : Fill → Bool
is_final filled_order = true
is_final partial_order = false
is_final dead_order = true
is_final working_order = false

abbrev pub is_final_reply : Reply AlpacaOrder → Bool
is_final_reply (answer order) = is_final (fill_of order.status)
is_final_reply (refused detail) = false
is_final_reply invalid = false

-- The order that the position waits for.
abbrev pub awaited_order : Position → PositionState → Option Text
awaited_order p pending_entry = p.broker_order_id
awaited_order p exiting = p.exit_broker_order_id
awaited_order p opened = none

abbrev pub final_order : Answers → Option Text → Bool
final_order ans none = false
final_order ans (some id) = is_final_reply (ans.get_order id)

-- The broker gives a final answer about the order that the position waits for.
abbrev pub is_answered : Answers → Position → Bool
is_answered ans p = final_order ans (awaited_order p p.state)

-- How a hold is settled by the fill of its entry's order.
abbrev pub settling : Position → Fill → List Call
settling p filled_order = settles_by capture p.cash_hold_id
settling p dead_order = settles_by release p.cash_hold_id
settling p partial_order = []
settling p working_order = []

abbrev pub reply_fill : Reply AlpacaOrder → Fill
reply_fill (answer order) = fill_of order.status
reply_fill (refused detail) = working_order
reply_fill invalid = working_order

abbrev pub poll_calls : Answers → (Fill → List Call) → Option Text → List Call
poll_calls ans f none = []
poll_calls ans f (some id) = fetch id ∷ f (reply_fill (ans.get_order id))

abbrev pub state_calls : Answers → Position → PositionState → List Call
state_calls ans p pending_entry = poll_calls ans (settling p) p.broker_order_id
state_calls ans p exiting = poll_calls ans (λ f. []) p.exit_broker_order_id
state_calls ans p opened = []

-- Each order is asked for once, and the hold of an entry is settled by its fill.
abbrev pub round_calls : Answers → List Position → List Call
round_calls ans [] = []
round_calls ans (p ∷ ps) = state_calls ans p p.state ++ round_calls ans ps

-- The action returns a value, makes those calls, and opens the position or takes it out of the book.
record Clears {A : Type 0} (p : Position) (a : A) (cs : List Call) (m : Exec A) : Type 0 where
  at :
      (ps : List Position) (w : World)
      → IsWellFormed w.book
      → OpenBut (p ∷ ps) w.book
      → ((m w).0 ≡ ok a) × OpenBut ps (m w).1.book × ((m w).1.calls ≡ w.calls ++ cs)

module _ (now : ℕ) (p : Position) (order : AlpacaOrder) where
  entry_outcome-Clears :
      (f : Fill) → is_final f ≡ true → Clears p tt (settling p f) (entry_outcome now p order f)
  unfolding entry_outcome mark_open is_opened
  entry_outcome-Clears filled_order final = record {
    at = λ ps w shape h. rw (capture_hold_lem p.cash_hold_id) (
      refl,
      modify-OpenBut _ p ps _ (λ q. refl) (modify-OpenBut_same (take_fill order) p ps w.book h),
      refl,
    );
  }
  entry_outcome-Clears partial_order final = cc final
  entry_outcome-Clears dead_order final = record {
    at = λ ps w shape h.
        rw (release_hold_lem p.cash_hold_id) (refl, remove-OpenBut p ps w.book shape h, refl);
  }
  entry_outcome-Clears working_order final = cc final

  exit_outcome-Clears : (f : Fill) → is_final f ≡ true → Clears p tt [] (exit_outcome now p order f)
  unfolding exit_outcome release_exit is_opened
  exit_outcome-Clears filled_order final = record {
    at = λ ps w shape h. (refl, remove-OpenBut p ps w.book shape h, sym (append-nil w.calls));
  }
  exit_outcome-Clears partial_order final = cc final
  exit_outcome-Clears dead_order final = record {
    at = λ ps w shape h.
        (refl, modify-OpenBut _ p ps w.book (λ q. refl) h, sym (append-nil w.calls));
  }
  exit_outcome-Clears working_order final = cc final

module _ (ans : Answers) where
  fetched-Clears :
      (p : Position) (f : AlpacaOrder → Exec (Unit {0})) (cs : Fill → List Call)
      (r : Reply AlpacaOrder)
      → ((order : AlpacaOrder)
          → is_final (fill_of order.status) ≡ true
          → Clears p tt (cs (fill_of order.status)) (f order))
      → is_final_reply r ≡ true
      → Clears p true (cs (reply_fill r)) (fetched r >>= when_fetched f)
  unfolding fetched when_fetched
  fetched-Clears p f cs (answer order) clears final = record {
    at = λ ps w shape h.
        let done = (clears order final).at ps w shape h in rw done.0 (refl, done.1, done.2);
  }
  fetched-Clears p f cs (refused detail) clears final = cc final
  fetched-Clears p f cs invalid clears final = cc final

  poll-Clears :
      (p : Position) (f : AlpacaOrder → Exec (Unit {0})) (cs : Fill → List Call) (id : Option Text)
      → ((order : AlpacaOrder)
          → is_final (fill_of order.status) ≡ true
          → Clears p tt (cs (fill_of order.status)) (f order))
      → final_order ans id ≡ true
      → Clears p true (poll_calls ans cs id) (poll ans f id)
  unfolding poll fetch_order
  poll-Clears p f cs none clears final = cc final
  poll-Clears p f cs (some id) clears final = record {
    at = λ ps w shape h.
        let done = (fetched-Clears p f cs (ans.get_order id) clears final).at ps _ shape h in
        (done.0, done.1, done.2 ∙ append_assoc w.calls (fetch id ∷ []) _);
  }

  reconcile_state-Clears :
      (p : Position) (st : PositionState)
      → final_order ans (awaited_order p st) ≡ true
      → Clears p true (state_calls ans p st) (reconcile_state ans p st)
  unfolding reconcile_state apply_entry apply_exit
  reconcile_state-Clears p pending_entry final =
      poll-Clears p _ (settling p) p.broker_order_id
        (λ order. entry_outcome-Clears ans.now p order (fill_of order.status)) final
  reconcile_state-Clears p exiting final =
      poll-Clears p _ (λ f. []) p.exit_broker_order_id
        (λ order. exit_outcome-Clears ans.now p order (fill_of order.status)) final
  reconcile_state-Clears p opened final = cc final

  reconcile_all-Clears :
      (ps : List Position) (n : ℕ) (w : World)
      → IsWellFormed w.book
      → OpenBut ps w.book
      → All (λ p. is_answered ans p ≡ true) ps
      → let (result, w') = reconcile_all ans n ps w in
        (result ≡ ok (n + length ps))
        × OpenBut [] w'.book
        × (w'.calls ≡ w.calls ++ round_calls ans ps)
  unfolding reconcile_all reconcile_position
  reconcile_all-Clears [] n w shape h final = (ap ok (omega arith), h, sym (append-nil w.calls))
  reconcile_all-Clears (p ∷ ps) n w shape h final =
      let done = (reconcile_state-Clears p p.state final.0).at ps w shape h in
      let rest =
        reconcile_all-Clears ps (suc n) (reconcile_state ans p p.state w).1
          ((reconcile_state-Keeps ans p p.state).at w shape) done.1 final.1 in
      rw done.0 (
        rest.0 ∙ ap ok (omega arith),
        rest.1,
        rest.2 ∙ rw done.2 (append_assoc w.calls (state_calls ans p p.state) _),
      )

  -- If the book is well-formed, and for each position that waits for an entry or an exit the broker
  -- answers that its order is filled or dead, then one round of the reconciler counts them all, and
  -- afterwards no position waits: each is open or out of the book. Its calls ask for the order of
  -- each once, capture the hold of each filled entry, and release the hold of each dead one.
  pub reconcile_once_settles :
      (w : World)
      → IsWellFormed w.book
      → All (λ p. is_answered ans p ≡ true) (pending_and_exiting w.book)
      → let (result, w') = reconcile_once ans w in
        (result ≡ ok (length (pending_and_exiting w.book)))
        × (pending_and_exiting w'.book ≡ [])
        × (w'.calls ≡ w.calls ++ round_calls ans (pending_and_exiting w.book))
  unfolding reconcile_once
  reconcile_once_settles w shape final =
      let all =
        reconcile_all-Clears (pending_and_exiting w.book) 0 w shape
          (pending_and_exiting-OpenBut w.book shape) final in
      (
        all.0 ∙ ap ok (omega arith),
        OpenBut-none_await _ (unfold reconcile_once in (reconcile_once-Keeps ans).at w shape) all.1,
        all.2,
      )
