-- ===== src/Repository/Writer/InOrder.antt =====
-- Lemmas about the order in which the writer applies its tasks.
use quant_execution.Base.{
  ℕ, zero, suc, ◌+◌, ◌-◌, ◌≤◌, ◌≡◌, refl, sym, subst, ap, ◌∙◌, Bool, true, Option, none, some, List,
  [], ◌∷◌, ◌++◌, arith, inl, inr, length, take, drop, take-append-drop, length-drop, length-append,
  Option-cases, take_short, drop_short,
}
use mathlib.Core.List.{append-nil, append_assoc}
use quant_execution.Domain.Records.{Task}
use quant_execution.Repository.Trades.{Table}
use quant_execution.Repository.Writer.{
  Writer, enqueue, collect_more, collect_batch, apply_task, apply_all, flush, drain, Event, put,
  take_batch, happen, run, finish, or_rolled_back,
}

-- The tasks that a run puts.
abbrev pub puts : List Event → List Task
puts [] = []
puts (put task ∷ es) = task ∷ puts es
puts (take_batch commits ∷ es) = puts es

-- Every batch of the run commits.
abbrev pub AllCommit : List Event → Type 0
AllCommit [] = Unit
AllCommit (put task ∷ es) = AllCommit es
AllCommit (take_batch commits ∷ es) = (commits ≡ true) × AllCommit es

collect_more_lem :
    (room : ℕ) (queue : List Task) → collect_more room queue ≡ (take room queue, drop room queue)
unfolding collect_more
collect_more_lem zero queue = refl
collect_more_lem (suc room) [] = refl
collect_more_lem (suc room) (task ∷ queue) =
    ap (λ r. (task ∷ r.0, r.1)) (collect_more_lem room queue)

one_less : (n : ℕ) → suc n - 1 ≡ n
one_less n = omega arith

-- A batch is the first tasks of the queue, at most the batch size of them and at least one, and the
-- others stay in the queue, in order.
pub collect_batch_lem :
    (size : ℕ) (queue : List Task)
    → 1 ≤ size
    → collect_batch size queue ≡ (take size queue, drop size queue)
unfolding collect_batch
collect_batch_lem zero queue h = absurd (omega arith)
collect_batch_lem (suc n) [] h = refl
collect_batch_lem (suc n) (first ∷ queue) h =
    ap (λ r. (first ∷ r.0, r.1))
      (ap (λ m. collect_more m queue) (one_less n) ∙ collect_more_lem n queue)

abbrev pub and_then : List Task → Option Table → Option Table
and_then tasks none = none
and_then tasks (some rows) = apply_all tasks rows

pub apply_all-append :
    (first then : List Task) (rows : Table)
    → apply_all (first ++ then) rows ≡ and_then then (apply_all first rows)
unfolding apply_all
apply_all-append [] then rows = refl
apply_all-append (task ∷ first) then rows = elim (Option-cases (apply_task task rows)) [
  | inl raised ↦ rw (apply_all, raised) refl
  | inr (rows', done) ↦ rw (apply_all, done) (apply_all-append first then rows')
]

pub or_keeps :
    (rows T : Table) (then : List Task) (applied : Option Table)
    → and_then then applied ≡ some T
    → (rows' : Table) × (applied ≡ some rows') × (apply_all then rows' ≡ some T)
or_keeps rows T then none h = cc
or_keeps rows T then (some rows') h = (rows', refl, h)

drained :
    (w : Writer) (rest : List Task) (T : Table)
    → 1 ≤ w.batch_size
    → apply_all (w.queue ++ rest) w.rows ≡ some T
    → apply_all ((drain true w).queue ++ rest) (drain true w).rows ≡ some T
unfolding drain flush
drained w rest T h applied =
    let first = take w.batch_size w.queue in
    let later = drop w.batch_size w.queue ++ rest in
    let cut : first ++ later ≡ w.queue ++ rest =
      sym (append_assoc first (drop w.batch_size w.queue) rest)
      ∙ ap (λ q. q ++ rest) (take-append-drop w.batch_size w.queue) in
    let parts =
      or_keeps w.rows T later (apply_all first w.rows)
        (sym (apply_all-append first later w.rows) ∙ ap (λ q. apply_all q w.rows) cut ∙ applied) in
    rw (collect_batch_lem w.batch_size w.queue h) (rw parts.1 parts.2)

put_waits :
    (task : Task) (w : Writer)
    → length w.queue + 1 ≤ w.queue_size
    → enqueue task w ≡ record w { queue = w.queue ++ task ∷ [] }
unfolding enqueue
put_waits task w h = ground arith

drain-queue :
    (commits : Bool) (w : Writer)
    → 1 ≤ w.batch_size
    → (drain commits w).queue ≡ drop w.batch_size w.queue
unfolding drain
drain-queue commits w h = ap (λ r. r.1) (collect_batch_lem w.batch_size w.queue h)

-- While the queue has room for every task put and every batch commits, the rows that the tasks in
-- order would give are those that the waiting tasks give when applied to the committed rows,
-- however the puts and the batches of the run interleave.
pub run_in_order :
    (es : List Event) (w : Writer) (T : Table)
    → 1 ≤ w.batch_size
    → length w.queue + length (puts es) ≤ w.queue_size
    → AllCommit es
    → apply_all (w.queue ++ puts es) w.rows ≡ some T
    → apply_all (run es w).queue (run es w).rows ≡ some T
unfolding run happen drain
run_in_order [] w T size room commit applied =
    ap (λ q. apply_all q w.rows) (sym (append-nil w.queue)) ∙ applied
run_in_order (put task ∷ es) w T size room commit applied =
    let waits = put_waits task w (omega arith) in
    subst (λ v. apply_all (run es v).queue (run es v).rows ≡ some T) (sym waits)
      (run_in_order es (record w { queue = w.queue ++ task ∷ [] }) T size
        (omega (arith, length-append w.queue (task ∷ []))) commit
        (ap (λ q. apply_all q w.rows) (append_assoc w.queue (task ∷ []) (puts es)) ∙ applied))
run_in_order (take_batch commits ∷ es) w T size room commit applied =
    subst (λ b. apply_all (run es (drain b w)).queue (run es (drain b w)).rows ≡ some T)
      (sym commit.0)
      (run_in_order es (drain true w) T size
        (rw (drain-queue true w size) (omega (arith, length-drop w.batch_size w.queue))) commit.1
        (drained w (puts es) T size applied))

happen-batch_size : (e : Event) (w : Writer) → (happen e w).batch_size ≡ w.batch_size
unfolding happen enqueue drain
happen-batch_size (put task) w = ground arith
happen-batch_size (take_batch commits) w = refl

run-batch_size : (es : List Event) (w : Writer) → (run es w).batch_size ≡ w.batch_size
unfolding run
run-batch_size [] w = refl
run-batch_size (e ∷ es) w = run-batch_size es (happen e w) ∙ happen-batch_size e w

-- If the queue has room for every task put, every batch commits, the tasks in order give rows, and
-- at most one batch waits at the end of the run, then the final flush leaves exactly those rows
-- and an empty queue.
pub finish_persists :
    (es : List Event) (w : Writer) (T : Table)
    → 1 ≤ w.batch_size
    → length w.queue + length (puts es) ≤ w.queue_size
    → AllCommit es
    → apply_all (w.queue ++ puts es) w.rows ≡ some T
    → length (run es w).queue ≤ (run es w).batch_size
    → ((finish true (run es w)).rows ≡ T) × ((finish true (run es w)).queue ≡ [])
unfolding finish drain flush
finish_persists es w T size room commit applied short =
    let v = run es w in
    let left = run_in_order es w T size room commit applied in
    let some_batch : 1 ≤ v.batch_size = omega (arith, run-batch_size es w) in
    rw (collect_batch_lem v.batch_size v.queue some_batch) (
      ap (or_rolled_back v.rows)
          (ap (λ q. apply_all q v.rows) (take_short v.batch_size v.queue short) ∙ left),
      drop_short v.batch_size v.queue short,
    )
