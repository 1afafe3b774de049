-- ===== src/Repository/Rows/Tasks.antt =====
-- The writer's tasks of src/quant_execution/repository/async_writer.py keep the ids unique.
use quant_execution.Base.{
  ◌≡◌, subst, some, List, [], ◌∷◌, inl, inr, text_keys, nat_keys, Option-cases,
}
use quant_execution.Domain.Records.{Task, insert, update}
use quant_execution.Repository.Rows.{DistinctIds, insert_row-DistinctIds, apply_update-DistinctIds}
use quant_execution.Repository.Trades.{Table, apply_update}
use quant_execution.Repository.Writer.{apply_task, apply_all}

apply_task-DistinctIds :
    (task : Task) (rows rows' : Table)
    → apply_task task rows ≡ some rows'
    → DistinctIds rows
    → DistinctIds rows'
unfolding apply_task
apply_task-DistinctIds (insert t) rows rows' h k = insert_row-DistinctIds t rows rows' h k
apply_task-DistinctIds (update i cs) rows rows' h k =
    let same : apply_update i cs rows ≡ rows' = cc h in
    subst DistinctIds same (apply_update-DistinctIds i cs rows k)

pub apply_all-DistinctIds :
    (tasks : List Task) (rows rows' : Table)
    → apply_all tasks rows ≡ some rows'
    → DistinctIds rows
    → DistinctIds rows'
unfolding apply_all
apply_all-DistinctIds [] rows rows' h k = let same : rows ≡ rows' = cc h in subst DistinctIds same k
apply_all-DistinctIds (task ∷ tasks) rows rows' h k = elim (Option-cases (apply_task task rows)) [
  | inl raised ↦ cc (rw (apply_all, raised) at h)
  | inr (next, done) ↦
      apply_all-DistinctIds tasks next rows' (rw (apply_all, done) at h)
        (apply_task-DistinctIds task rows next done k)
]
