-- ===== src/Services/Reconciler/Orders.antt =====
-- The reconciler, and the orders of the positions that are being exited.
use quant_execution.Base.{ℕ, Text, refl, Option, none, some, List, [], ◌∷◌}
use quant_execution.Domain.Enums.{PositionState, pending_entry, opened, exiting}
use quant_execution.Domain.Records.{Position, AlpacaOrder}
use quant_execution.Positions.{pending_and_exiting, mark_open, release_exit, set_state, reopened}
use quant_execution.Services.World.{Reply, answer, refused, invalid, Answers, Exec, with_book}
use quant_execution.Services.World.Orders.{
  KeepsSound, KeepsSound-bind, KeepsSound-gets, KeepsSound-modify, KeepsSound-modify_same,
  KeepsSound-write, sound_rules,
}
use quant_execution.Services.Reconciler.{
  Fill, filled_order, partial_order, dead_order, working_order, take_fill, capture_hold,
  release_hold, entry_outcome, apply_entry, exit_outcome, apply_exit, fetched, fetch_order,
  when_fetched, poll, reconcile_state, reconcile_position, reconcile_all, reconcile_once, fill_of,
  count_if,
}

mark_open-KeepsSound : (p : Position) → KeepsSound (with_book (mark_open p))
unfolding mark_open
mark_open-KeepsSound p = KeepsSound-modify (set_state opened) p (λ q. (refl, refl)) (λ q. refl)

release_exit-KeepsSound : (p : Position) → KeepsSound (with_book (release_exit p))
unfolding release_exit
release_exit-KeepsSound p = KeepsSound-modify reopened p (λ q. (refl, refl)) (λ q. refl)

capture_hold-KeepsSound : (h : Option ℕ) → KeepsSound (capture_hold h)
unfolding capture_hold
capture_hold-KeepsSound none = search sound_rules
capture_hold-KeepsSound (some h) = search sound_rules

release_hold-KeepsSound : (h : Option ℕ) → KeepsSound (release_hold h)
unfolding release_hold
release_hold-KeepsSound none = search sound_rules
release_hold-KeepsSound (some h) = search sound_rules

module _ (now : ℕ) (p : Position) (order : AlpacaOrder) where
  entry_outcome-KeepsSound : (f : Fill) → KeepsSound (entry_outcome now p order f)
  unfolding entry_outcome
  entry_outcome-KeepsSound filled_order = KeepsSound-bind _ _ (KeepsSound-write _) (λ u.
      KeepsSound-bind _ _
        (KeepsSound-modify_same (take_fill order) p (λ q. (refl, refl)) (λ q. refl))
        (λ v.
          KeepsSound-bind _ _ (mark_open-KeepsSound p)
            (λ x. capture_hold-KeepsSound p.cash_hold_id)))
  entry_outcome-KeepsSound partial_order = search sound_rules
  entry_outcome-KeepsSound dead_order = search (sound_rules, release_hold-KeepsSound)
  entry_outcome-KeepsSound working_order = search sound_rules

  exit_outcome-KeepsSound : (f : Fill) → KeepsSound (exit_outcome now p order f)
  unfolding exit_outcome
  exit_outcome-KeepsSound filled_order = search sound_rules
  exit_outcome-KeepsSound partial_order = search sound_rules
  exit_outcome-KeepsSound dead_order = search (sound_rules, release_exit-KeepsSound)
  exit_outcome-KeepsSound working_order = search sound_rules

apply_entry-KeepsSound :
    (now : ℕ) (p : Position) (order : AlpacaOrder) → KeepsSound (apply_entry now p order)
unfolding apply_entry
apply_entry-KeepsSound now p order = entry_outcome-KeepsSound now p order (fill_of order.status)

apply_exit-KeepsSound :
    (now : ℕ) (p : Position) (order : AlpacaOrder) → KeepsSound (apply_exit now p order)
unfolding apply_exit
apply_exit-KeepsSound now p order = exit_outcome-KeepsSound now p order (fill_of order.status)

module _ (ans : Answers) where
  fetched-KeepsSound : (r : Reply AlpacaOrder) → KeepsSound (fetched r)
  unfolding fetched
  fetched-KeepsSound (answer order) = search sound_rules
  fetched-KeepsSound (refused detail) = search sound_rules
  fetched-KeepsSound invalid = search sound_rules

  fetch_order-KeepsSound : (id : Text) → KeepsSound (fetch_order ans id)
  unfolding fetch_order
  fetch_order-KeepsSound id = search (sound_rules, fetched-KeepsSound)

  when_fetched-KeepsSound :
      (f : AlpacaOrder → Exec (Unit {0})) (o : Option AlpacaOrder)
      → ((order : AlpacaOrder) → KeepsSound (f order))
      → KeepsSound (when_fetched f o)
  unfolding when_fetched
  when_fetched-KeepsSound f none k = search sound_rules
  when_fetched-KeepsSound f (some order) k = search (sound_rules, k)

  poll-KeepsSound :
      (f : AlpacaOrder → Exec (Unit {0})) (id : Option Text)
      → ((order : AlpacaOrder) → KeepsSound (f order))
      → KeepsSound (poll ans f id)
  unfolding poll
  poll-KeepsSound f none k = search sound_rules
  poll-KeepsSound f (some id) k =
      KeepsSound-bind _ _ (fetch_order-KeepsSound id) (λ o. when_fetched-KeepsSound f o k)

  reconcile_state-KeepsSound :
      (p : Position) (s : PositionState) → KeepsSound (reconcile_state ans p s)
  unfolding reconcile_state
  reconcile_state-KeepsSound p pending_entry =
      poll-KeepsSound _ p.broker_order_id (apply_entry-KeepsSound ans.now p)
  reconcile_state-KeepsSound p exiting =
      poll-KeepsSound _ p.exit_broker_order_id (apply_exit-KeepsSound ans.now p)
  reconcile_state-KeepsSound p opened = search sound_rules

  reconcile_all-KeepsSound : (n : ℕ) (ps : List Position) → KeepsSound (reconcile_all ans n ps)
  unfolding reconcile_all reconcile_position
  reconcile_all-KeepsSound n [] = search sound_rules
  reconcile_all-KeepsSound n (p ∷ ps) =
      KeepsSound-bind _ _ (reconcile_state-KeepsSound p p.state)
        (λ b. reconcile_all-KeepsSound (count_if b n) ps)

  pub reconcile_once-KeepsSound : KeepsSound (reconcile_once ans)
  unfolding reconcile_once
  reconcile_once-KeepsSound =
      KeepsSound-bind _ _ (KeepsSound-gets (λ w. pending_and_exiting w.book))
        (reconcile_all-KeepsSound 0)
