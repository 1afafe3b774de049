-- ===== src/Repository/Writer/Lost.antt =====
-- Lemmas about a batch that fails and about the end of `run_forever`.
use quant_execution.Base.{
  ℕ, ◌-◌, ◌≤◌, Text, ◌≡◌, refl, ap, ◌∙◌, Bool, true, false, none, some, List, [], ◌∷◌, ◌++◌, arith,
  inl, inr, nat_eq, length, drop, Bool-cases, Option-cases, length-drop,
}
use quant_execution.Domain.Records.{
  Trade, Change, apply_change, apply_changes, Task, insert, update,
}
use quant_execution.Repository.Trades.{
  Table, exists_by_idempotency_key, insert_row, update_rows, apply_update,
}
use quant_execution.Repository.Writer.{Writer, apply_task, apply_all, flush, drain, finish}
use quant_execution.Repository.Writer.InOrder.{collect_batch_lem}

apply_change-key : (c : Change) (t : Trade) → (apply_change c t).idempotency_key ≡ t.idempotency_key
unfolding apply_change
apply_change-key (Change.status s) t = refl
apply_change-key (Change.broker_order_id s) t = refl
apply_change-key (Change.exit_broker_order_id s) t = refl
apply_change-key (Change.error_code s) t = refl
apply_change-key (Change.error_detail s) t = refl
apply_change-key (Change.filled_quantity s) t = refl
apply_change-key (Change.filled_avg_price s) t = refl
apply_change-key (Change.exit_filled_quantity s) t = refl
apply_change-key (Change.exit_filled_avg_price s) t = refl
apply_change-key (Change.exit_reason s) t = refl
apply_change-key (Change.cash_hold_id s) t = refl
apply_change-key (Change.submitted_at s) t = refl
apply_change-key (Change.filled_at s) t = refl
apply_change-key (Change.exit_submitted_at s) t = refl
apply_change-key (Change.closed_at s) t = refl

apply_changes-key :
    (cs : List Change) (t : Trade) → (apply_changes cs t).idempotency_key ≡ t.idempotency_key
unfolding apply_changes
apply_changes-key [] t = refl
apply_changes-key (c ∷ cs) t = apply_changes-key cs (apply_change c t) ∙ apply_change-key c t

abbrev row_or : Bool → List Change → Trade → Trade
row_or true cs t = apply_changes cs t
row_or false cs t = t

exists-update_rows :
    (key : Text) (i : ℕ) (cs : List Change) (rows : Table)
    → exists_by_idempotency_key key (update_rows i cs rows) ≡ exists_by_idempotency_key key rows
unfolding exists_by_idempotency_key update_rows
exists-update_rows key i cs [] = refl
exists-update_rows key i cs (t ∷ ts) = elim (Bool-cases (nat_eq t.id i)) [
  | inl hit ↦ rw (hit, apply_changes-key cs t, exists-update_rows key i cs ts) refl
  | inr miss ↦ rw (miss, exists-update_rows key i cs ts) refl
]

exists-apply_update :
    (key : Text) (i : ℕ) (cs : List Change) (rows : Table)
    → exists_by_idempotency_key key (apply_update i cs rows) ≡ exists_by_idempotency_key key rows
unfolding apply_update
exists-apply_update key i [] rows = refl
exists-apply_update key i (c ∷ cs) rows = exists-update_rows key i (c ∷ cs) rows

exists-append :
    (key : Text) (rows : Table) (t : Trade)
    → exists_by_idempotency_key key rows ≡ true
    → exists_by_idempotency_key key (rows ++ t ∷ []) ≡ true
unfolding exists_by_idempotency_key
exists-append key [] t h = cc
exists-append key (u ∷ us) t h = ground (arith, exists-append key us t)

exists-apply_task :
    (key : Text) (task : Task) (rows rows' : Table)
    → exists_by_idempotency_key key rows ≡ true
    → apply_task task rows ≡ some rows'
    → exists_by_idempotency_key key rows' ≡ true
unfolding apply_task insert_row
exists-apply_task key (insert t) rows rows' h done = ground (arith, exists-append key rows t h)
exists-apply_task key (update i cs) rows rows' h done =
    ground (arith, exists-apply_update key i cs rows)

insert_again :
    (t : Trade) (rows : Table)
    → exists_by_idempotency_key t.idempotency_key rows ≡ true
    → apply_task (insert t) rows ≡ none
unfolding apply_task insert_row
insert_again t rows h = ground arith

apply_all-insert_again :
    (before after : List Task) (t : Trade) (rows : Table)
    → exists_by_idempotency_key t.idempotency_key rows ≡ true
    → apply_all (before ++ insert t ∷ after) rows ≡ none
unfolding apply_all
apply_all-insert_again [] after t rows h = rw (apply_all, insert_again t rows h) refl
apply_all-insert_again (task ∷ before) after t rows h = elim (Option-cases (apply_task task rows)) [
  | inl raised ↦ rw (apply_all, raised) refl
  | inr (rows', done) ↦
      rw (apply_all, done)
        (apply_all-insert_again before after t rows'
          (exists-apply_task t.idempotency_key task rows rows' h done))
]

-- A batch that inserts a trade whose key a committed row has writes nothing: the other tasks of the
-- batch, before it and after it, are lost with it.
pub flush-insert_again :
    (before after : List Task) (t : Trade) (rows : Table) (commits : Bool)
    → exists_by_idempotency_key t.idempotency_key rows ≡ true
    → flush commits (before ++ insert t ∷ after) rows ≡ rows
unfolding flush
flush-insert_again before after t rows false h = refl
flush-insert_again before after t rows true h =
    rw (apply_all-insert_again before after t rows h) refl

-- The final flush takes one batch: what waits beyond the batch size stays in the queue of the
-- thread that ends, whether the batch commits or not.
pub finish_leaves :
    (commits : Bool) (w : Writer)
    → 1 ≤ w.batch_size
    → ((finish commits w).queue ≡ drop w.batch_size w.queue)
      × (length (finish commits w).queue ≡ length w.queue - w.batch_size)
unfolding finish drain
finish_leaves commits w h =
    let left = ap (λ r. r.1) (collect_batch_lem w.batch_size w.queue h) in
    (left, ap length left ∙ length-drop w.batch_size w.queue)
