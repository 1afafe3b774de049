-- ===== src/Workers/Recovery/Entries.antt =====
-- The handlers of src/quant_execution/domain/services.py in paper mode keep the book what the rows
-- tell, once the writer has applied their tasks: `execute`.
use quant_execution.Base.{
  ℕ, Text, ◌≡◌, refl, sym, ◌∙◌, subst, Bool, true, false, Option, none, some, List, [], ◌∷◌, ◌++◌,
  arith, if◌then◌else◌,
}
use quant_execution.Domain.Decimal.{Decimal}
use quant_execution.Domain.Enums.{filled, opened, is_opened, is_paper_mode}
use quant_execution.Domain.Records.{
  Tick, WatchlistEntry, MessageMeta, Position, Trade, Task, Change, apply_changes,
}
use quant_execution.Positions.{open_position}
use quant_execution.Positions.Invariant.{IsWellFormed, open_position-IsWellFormed}
use quant_execution.Repository.Rows.Queries.{asked_for}
use quant_execution.Repository.Trades.{Table, insert_row, apply_update}
use quant_execution.Repository.Writer.{apply_task, apply_all}
use quant_execution.Repository.Writer.InOrder.{apply_all-append, or_keeps}
use quant_execution.Services.Execution.{or_raise, sell_target, enter, execute, take_key, fill_paper}
use quant_execution.Services.Execution.Paper.{PaperBook, IsQuiet-open}
use quant_execution.Services.Rehydrate.{
  is_rehydrated, rehydrated_state, position_from_trade, or_decimal,
}
use quant_execution.Services.Sizing.{Sized, sized, configuration_error}
use quant_execution.Services.TradeRows.{new_trade}
use quant_execution.Services.World.{
  Answers, Error, Result, ok, err, World, Service, Exec, pure, raise, after, ◌>>=◌, ◌>>◌, write,
}
use quant_execution.Positions.Open.{OpenBut, open_position-OpenBut}
use quant_execution.Workers.Recovery.{Mirrors, settled, entry-Mirrors}

-- The rows that the tasks of `w` make of `rows0`, if they do, tell what the book holds, and its
-- positions are open, but for some.
pub record Tracked (rows0 : Table) (ps : List Position) (w : World) : Type 0 where
  pub shape : IsWellFormed w.book
  pub paper : PaperBook w.book
  pub steady : OpenBut ps w.book
  pub mirrors : (rows : Table) → apply_all w.tasks rows0 ≡ some rows → Mirrors w.book rows

pub record IsTracked (rows0 : Table) {A : Type 0} (m : Exec A) : Type 0 where
  pub at : (w : World) → Tracked rows0 [] w → Tracked rows0 [] (m w).1

one_task :
    (task : Task) (rows rows' : Table)
    → apply_all (task ∷ []) rows ≡ some rows'
    → apply_task task rows ≡ some rows'
unfolding apply_all
one_task task rows rows' h = ground arith

-- The last of some tasks, and the rows before it.
pub last_task :
    (tasks : List Task) (task : Task) (rows0 rows' : Table)
    → apply_all (tasks ++ task ∷ []) rows0 ≡ some rows'
    → (rows : Table) × (apply_all tasks rows0 ≡ some rows) × (apply_task task rows ≡ some rows')
last_task tasks task rows0 rows' h =
    let parts =
      or_keeps rows0 rows' (task ∷ []) (apply_all tasks rows0)
        (sym (apply_all-append tasks (task ∷ []) rows0) ∙ h) in
    (parts.0, parts.1, one_task task parts.0 rows' parts.2)

-- An update always applies.
pub update_task :
    (i : ℕ) (cs : List Change) (rows rows' : Table)
    → apply_task (Task.update i cs) rows ≡ some rows'
    → apply_update i cs rows ≡ rows'
unfolding apply_task
update_task i cs rows rows' h = cc

insert_task :
    (t : Trade) (rows rows' : Table)
    → apply_task (Task.insert t) rows ≡ some rows'
    → insert_row t rows ≡ some rows'
unfolding apply_task
insert_task t rows rows' h = h

or_decimal_self : (d : Decimal) → or_decimal (some d) d ≡ d
or_decimal_self d = ground arith

module _ (rows0 : Table) where
  module _ {A : Type 0} where
    pub IsTracked-pure : (a : A) → IsTracked rows0 (pure a)
    IsTracked-pure a = record { at = λ w h. h }

    pub IsTracked-raise : (e : Error) → IsTracked rows0 (raise {A = A} e)
    IsTracked-raise e = record { at = λ w h. h }

  module _ {A B : Type 0} where
    pub after-IsTracked :
        (r : Result A) (f : A → Exec B) (w : World)
        → ((a : A) → IsTracked rows0 (f a))
        → Tracked rows0 [] w
        → Tracked rows0 [] (after r f w).1
    after-IsTracked (ok a) f w k h = (k a).at w h
    after-IsTracked (err e) f w k h = h

    pub IsTracked-bind :
        (m : Exec A) (f : A → Exec B)
        → IsTracked rows0 m
        → ((a : A) → IsTracked rows0 (f a))
        → IsTracked rows0 (m >>= f)
    IsTracked-bind m f km kf = record {
      at = λ w h. after-IsTracked (m w).0 f (m w).1 kf (km.at w h);
    }

  -- A paper entry: the row, its fill and the position.
  module _ (sv : Service) (paper : is_paper_mode sv.mode ≡ true) (ans : Answers) (tick : Tick)
      (entry : WatchlistEntry) (provenance : MessageMeta) (key : Text)
      (qty notional : Decimal) where
    abbrev row : Trade
    row = new_trade sv ans tick entry provenance key qty notional

    abbrev fill : List Change
    fill =
        Change.filled_quantity (some qty)
        ∷ Change.filled_avg_price (some tick.price)
        ∷ Change.filled_at ans.now
        ∷ []

    abbrev bought : Position
    bought = record {
      trade_id = ans.new_id;
      symbol = entry.symbol;
      position_type = entry.position_type;
      quantity = qty;
      entry_price = tick.price;
      sell_price = sell_target entry;
      is_paper = true;
      idempotency_key = key;
      broker_order_id = none;
      exit_broker_order_id = none;
      cash_hold_id = none;
      state = opened;
    }

    filled_row :
        asked_for is_rehydrated true (apply_changes (Change.status filled ∷ fill) row) ≡ true
    unfolding apply_changes new_trade is_rehydrated
    filled_row = rw paper refl

    same_position :
        position_from_trade (apply_changes (Change.status filled ∷ fill) row) ≡ settled bought
    unfolding apply_changes new_trade position_from_trade rehydrated_state
    same_position = rw (paper, or_decimal_self qty, or_decimal_self tick.price) refl

    insert_fill-IsTracked :
        IsTracked rows0 (write (Task.insert row) >> fill_paper sv ans tick entry key qty)
    unfolding fill_paper new_trade apply_changes
    insert_fill-IsTracked = record {
      at = λ w h. record {
        shape = open_position-IsWellFormed _ w.book h.shape;
        paper = ((IsQuiet-open _ refl).at w h.paper).0;
        steady = open_position-OpenBut bought w.book (unfold is_opened in refl) h.steady;
        mirrors = λ rows applied.
            let second = last_task _ _ rows0 rows applied in
            let first = last_task w.tasks _ rows0 second.0 second.1 in
            subst (Mirrors (open_position bought w.book))
              (update_task ans.new_id (Change.status filled ∷ fill) second.0 rows second.2)
              (entry-Mirrors row (Change.status filled) fill bought w.book first.0 second.0
                (h.mirrors first.0 first.1) (insert_task row first.0 second.0 first.2) filled_row
                same_position refl refl);
      };
    }

  fork-IsTracked :
      (t : Task) (b : Bool) (m n : Exec (Unit {0}))
      → b ≡ true
      → IsTracked rows0 (write t >> m)
      → IsTracked rows0 (write t >> (if b then m else n))
  fork-IsTracked t true m n e k = k
  fork-IsTracked t false m n e k = cc e

  or_raise-IsTracked : (s : Sized) → IsTracked rows0 (or_raise s)
  or_raise-IsTracked (sized qty notional) = IsTracked-pure (qty, notional)
  or_raise-IsTracked configuration_error = IsTracked-raise _

  module _ (sv : Service) (paper : is_paper_mode sv.mode ≡ true) (ans : Answers) (tick : Tick)
      (entry : WatchlistEntry) where
    enter-IsTracked :
        (provenance : MessageMeta) (key : Option Text)
        → IsTracked rows0 (enter sv ans tick entry provenance key)
    unfolding enter
    enter-IsTracked provenance none = IsTracked-pure none
    enter-IsTracked provenance (some key) = IsTracked-bind _ _ (or_raise-IsTracked _) (λ sizes.
        IsTracked-bind _ _
          (fork-IsTracked _ (is_paper_mode sv.mode) _ _ paper
            (insert_fill-IsTracked sv paper ans tick entry provenance key sizes.0 sizes.1))
          (λ u. IsTracked-pure _))

    take_key-IsTracked : (base : Text) → IsTracked rows0 (take_key base)
    unfolding take_key
    take_key-IsTracked base = record {
      at = λ w h. record {
        shape = h.shape;
        paper = h.paper;
        steady = h.steady;
        mirrors = h.mirrors;
      };
    }

    -- `execute`, whatever it does with the signal.
    pub execute-IsTracked :
        (provenance : MessageMeta) → IsTracked rows0 (execute sv ans tick entry provenance)
    unfolding execute
    execute-IsTracked provenance =
        IsTracked-bind _ _ (take_key-IsTracked _) (enter-IsTracked provenance)
