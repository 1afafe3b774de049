-- ===== src/Services/Reconciler/Shape.antt =====
-- Lemmas about the reconciler and the shape of the book.
use quant_execution.Base.{ℕ, Text, refl, Option, none, some, List, [], ◌∷◌}
use quant_execution.Domain.Enums.{PositionState, pending_entry, opened, exiting}
use quant_execution.Domain.Records.{Position, AlpacaOrder}
use quant_execution.Positions.{pending_and_exiting}
use quant_execution.Services.World.{Reply, answer, refused, invalid, Answers, Exec}
use quant_execution.Services.World.Shape.{
  Keeps, Keeps-bind, Keeps-gets, Keeps-modify, Keeps-write, Keeps-mark_open, shape_rules,
}
use quant_execution.Services.Reconciler.{
  Fill, filled_order, partial_order, dead_order, working_order, take_fill, capture_hold,
  release_hold, entry_outcome, apply_entry, exit_outcome, apply_exit, fetched, fetch_order,
  when_fetched, poll, reconcile_state, reconcile_position, reconcile_all, reconcile_once, fill_of,
  count_if,
}

capture_hold-Keeps : (h : Option ℕ) → Keeps (capture_hold h)
unfolding capture_hold
capture_hold-Keeps none = search shape_rules
capture_hold-Keeps (some h) = search shape_rules

release_hold-Keeps : (h : Option ℕ) → Keeps (release_hold h)
unfolding release_hold
release_hold-Keeps none = search shape_rules
release_hold-Keeps (some h) = search shape_rules

module _ (now : ℕ) (p : Position) (order : AlpacaOrder) where
  entry_outcome-Keeps : (f : Fill) → Keeps (entry_outcome now p order f)
  unfolding entry_outcome
  entry_outcome-Keeps filled_order = Keeps-bind _ _ (Keeps-write _) (λ u.
      Keeps-bind _ _ (Keeps-modify (take_fill order) p (λ q. (refl, refl)))
        (λ v. Keeps-bind _ _ (Keeps-mark_open p) (λ x. capture_hold-Keeps p.cash_hold_id)))
  entry_outcome-Keeps partial_order = search shape_rules
  entry_outcome-Keeps dead_order = search (shape_rules, release_hold-Keeps)
  entry_outcome-Keeps working_order = search shape_rules

  exit_outcome-Keeps : (f : Fill) → Keeps (exit_outcome now p order f)
  unfolding exit_outcome
  exit_outcome-Keeps filled_order = search shape_rules
  exit_outcome-Keeps partial_order = search shape_rules
  exit_outcome-Keeps dead_order = search shape_rules
  exit_outcome-Keeps working_order = search shape_rules

pub apply_entry-Keeps :
    (now : ℕ) (p : Position) (order : AlpacaOrder) → Keeps (apply_entry now p order)
unfolding apply_entry
apply_entry-Keeps now p order = entry_outcome-Keeps now p order (fill_of order.status)

pub apply_exit-Keeps :
    (now : ℕ) (p : Position) (order : AlpacaOrder) → Keeps (apply_exit now p order)
unfolding apply_exit
apply_exit-Keeps now p order = exit_outcome-Keeps now p order (fill_of order.status)

module _ (ans : Answers) where
  fetched-Keeps : (r : Reply AlpacaOrder) → Keeps (fetched r)
  unfolding fetched
  fetched-Keeps (answer order) = search shape_rules
  fetched-Keeps (refused detail) = search shape_rules
  fetched-Keeps invalid = search shape_rules

  fetch_order-Keeps : (id : Text) → Keeps (fetch_order ans id)
  unfolding fetch_order
  fetch_order-Keeps id = search (shape_rules, fetched-Keeps)

  when_fetched-Keeps :
      (f : AlpacaOrder → Exec (Unit {0})) (o : Option AlpacaOrder)
      → ((order : AlpacaOrder) → Keeps (f order))
      → Keeps (when_fetched f o)
  unfolding when_fetched
  when_fetched-Keeps f none k = search shape_rules
  when_fetched-Keeps f (some order) k = search (shape_rules, k)

  poll-Keeps :
      (f : AlpacaOrder → Exec (Unit {0})) (id : Option Text)
      → ((order : AlpacaOrder) → Keeps (f order))
      → Keeps (poll ans f id)
  unfolding poll
  poll-Keeps f none k = search shape_rules
  poll-Keeps f (some id) k = Keeps-bind _ _ (fetch_order-Keeps id) (λ o. when_fetched-Keeps f o k)

  pub reconcile_state-Keeps : (p : Position) (s : PositionState) → Keeps (reconcile_state ans p s)
  unfolding reconcile_state
  reconcile_state-Keeps p pending_entry =
      poll-Keeps _ p.broker_order_id (apply_entry-Keeps ans.now p)
  reconcile_state-Keeps p exiting = poll-Keeps _ p.exit_broker_order_id (apply_exit-Keeps ans.now p)
  reconcile_state-Keeps p opened = search shape_rules

  reconcile_all-Keeps : (n : ℕ) (ps : List Position) → Keeps (reconcile_all ans n ps)
  unfolding reconcile_all reconcile_position
  reconcile_all-Keeps n [] = search shape_rules
  reconcile_all-Keeps n (p ∷ ps) =
      Keeps-bind _ _ (reconcile_state-Keeps p p.state) (λ b. reconcile_all-Keeps (count_if b n) ps)

  pub reconcile_once-Keeps : Keeps (reconcile_once ans)
  unfolding reconcile_once
  reconcile_once-Keeps =
      Keeps-bind _ _ (Keeps-gets (λ w. pending_and_exiting w.book)) (reconcile_all-Keeps 0)
