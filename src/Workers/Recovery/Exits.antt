-- ===== src/Workers/Recovery/Exits.antt =====
-- The handlers of src/quant_execution/domain/services.py in paper mode keep the book what the rows
-- tell, once the writer has applied their tasks: `check_exits` and `liquidate_all`.
use quant_execution.Base.{
  ℕ, ◌≡◌, refl, sym, ◌∙◌, subst, true, false, some, List, [], ◌∷◌, arith, inl, inr, Option-cases,
  All,
}
use quant_execution.Base.Sort.{All-map}
use quant_execution.Domain.Decimal.{Decimal}
use quant_execution.Domain.Enums.{ExitReason, closed, target_price}
use quant_execution.Domain.Records.{Tick, Position, Trade, Change, apply_changes}
use quant_execution.Positions.{Book, remove, claim_exits, claim_all_open}
use quant_execution.Positions.Invariant.{IsWellFormed, remove-IsWellFormed}
use quant_execution.Positions.Flips.{flips-IsWellFormed}
use quant_execution.Repository.Rows.{get-apply_update, apply_changes-same}
use quant_execution.Repository.Rows.Queries.{asked_for}
use quant_execution.Repository.Trades.{Table, get, apply_update}
use quant_execution.Repository.Writer.{apply_all}
use quant_execution.Services.Execution.{
  exit_paper, submit_exits, claim, check_exits, liquidate_all, last_or_entry,
}
use quant_execution.Services.Execution.Paper.{IsPaper, PaperBook, IsQuiet-remove, submit_exit-paper}
use quant_execution.Services.Execution.Paper.Handlers.{claim_exits-IsPaper, claim_all_open-IsPaper}
use quant_execution.Services.Rehydrate.{is_rehydrated}
use quant_execution.Services.World.{Answers, World, Exec, ◌>>◌}
use quant_execution.Workers.Recovery.{Mirrors, Names, found-Names, exit-Mirrors}
use quant_execution.Workers.Recovery.Claims.{
  SamePositions, IsHeld, claim_exits-SamePositions, claim_all_open-SamePositions,
  claim_exits-IsHeld, claim_all_open-IsHeld,
}
use quant_execution.Positions.Open.{
  OpenBut, remove-OpenBut, claim_exits-OpenBut, claim_all_open-OpenBut,
}
use quant_execution.Workers.Recovery.Entries.{
  Tracked, IsTracked, IsTracked-pure, after-IsTracked, last_task, update_task,
}

Names-apply_update :
    (i : ℕ) (c : Change) (cs : List Change) (p : Position) (rows : Table)
    → Names p rows
    → Names p (apply_update i (c ∷ cs) rows)
Names-apply_update i c cs p rows names t found = elim (Option-cases (get p.trade_id rows)) [
  | inl gone ↦ ground (arith, get-apply_update i p.trade_id c cs rows)
  | inr (u, row) ↦ ground (
    arith,
    get-apply_update i p.trade_id c cs rows,
    names u row,
    (apply_changes-same (c ∷ cs) u).1,
  )
]

module _ (rows0 : Table) where
  -- A claimed position: a paper one, whose row names its symbol.
  abbrev Claimed : World → Position → Type 0
  Claimed w p = IsPaper p × ((rows : Table) → apply_all w.tasks rows0 ≡ some rows → Names p rows)

  module _ (ans : Answers) (price : Decimal) (reason : ExitReason) (p : Position) where
    abbrev sold : List Change
    sold =
        Change.exit_reason reason
        ∷ Change.exit_submitted_at ans.now
        ∷ Change.exit_filled_quantity (some p.quantity)
        ∷ Change.exit_filled_avg_price (some price)
        ∷ Change.closed_at ans.now
        ∷ []

    closed_row :
        (t : Trade)
        → asked_for is_rehydrated true (apply_changes (Change.status closed ∷ sold) t) ≡ false
    unfolding apply_changes is_rehydrated
    closed_row t = refl

    exit_paper-Tracked :
        (ps : List Position) (w : World)
        → Tracked rows0 (p ∷ ps) w
        → Claimed w p
        → Tracked rows0 ps (exit_paper ans p price reason w).1
    unfolding exit_paper
    exit_paper-Tracked ps w h claimed = record {
      shape = remove-IsWellFormed p w.book h.shape;
      paper = ((IsQuiet-remove p).at w h.paper).0;
      steady = remove-OpenBut p ps w.book h.shape h.steady;
      mirrors = λ rows applied.
          let last = last_task w.tasks _ rows0 rows applied in
          subst (Mirrors (remove p w.book))
            (update_task p.trade_id (Change.status closed ∷ sold) last.0 rows last.2)
            (exit-Mirrors (Change.status closed) sold p w.book last.0 h.shape
              (h.mirrors last.0 last.1) (claimed.1 last.0 last.1) closed_row);
    }

    exit_paper-Claimed :
        (w : World) (q : Position) → Claimed w q → Claimed (exit_paper ans p price reason w).1 q
    unfolding exit_paper
    exit_paper-Claimed w q claimed = (
      claimed.0,
      λ rows applied.
          let last = last_task w.tasks _ rows0 rows applied in
          subst (Names q) (update_task p.trade_id (Change.status closed ∷ sold) last.0 rows last.2)
            (Names-apply_update p.trade_id (Change.status closed) sold q last.0
              (claimed.1 last.0 last.1)),
    )

  module _ (ans : Answers) where
    submit_exits-Tracked :
        (price : Position → World → Decimal) (reason : ExitReason) (ps : List Position) (w : World)
        → Tracked rows0 ps w
        → All (Claimed w) ps
        → Tracked rows0 [] (submit_exits ans price reason ps w).1
    unfolding submit_exits exit_paper
    submit_exits-Tracked price reason [] w h claimed = h
    submit_exits-Tracked price reason (p ∷ ps) w h claimed =
        let at = price p w in
        subst
          (λ (m : Exec (Unit {0})). Tracked rows0 [] ((m >> submit_exits ans price reason ps) w).1)
          (sym (submit_exit-paper ans p at reason claimed.0.0))
          (submit_exits-Tracked price reason ps (exit_paper ans p at reason w).1
            (exit_paper-Tracked ans at reason p ps w h claimed.0)
            (All-map (exit_paper-Claimed ans at reason p w) ps claimed.1))

    -- What is done with the positions that a claim takes.
    claim-Tracked :
        (f : Book → Book × List Position) (price : Position → World → Decimal) (reason : ExitReason)
        (w : World)
        → IsWellFormed (f w.book).0
        → OpenBut (f w.book).1 (f w.book).0
        → SamePositions w.book (f w.book).0
        → PaperBook (f w.book).0 × All IsPaper (f w.book).1
        → All (IsHeld w.book) (f w.book).1
        → Tracked rows0 [] w
        → Tracked rows0 []
            (submit_exits ans price reason (f w.book).1 (record w { book = (f w.book).0 })).1
    claim-Tracked f price reason w shape steady same paper are_held h =
        submit_exits-Tracked price reason (f w.book).1 (record w { book = (f w.book).0 })
          (record {
            shape = shape;
            paper = paper.0;
            steady = steady;
            mirrors =
                λ rows applied. record { at = λ s i. same s i ∙ (h.mirrors rows applied).at s i };
          })
          (both (f w.book).1 paper.1 are_held)
      where
        both :
            (ps : List Position)
            → All IsPaper ps
            → All (IsHeld w.book) ps
            → All (Claimed (record w { book = (f w.book).0 })) ps
        both [] k l = tt
        both (p ∷ ps) k l = (
          (k.0, λ rows applied. found-Names p l.0.0 w.book rows (h.mirrors rows applied) l.0.1),
          both ps k.1 l.1,
        )

    pub check_exits-IsTracked : (tick : Tick) → IsTracked rows0 (check_exits ans tick)
    unfolding check_exits claim
    check_exits-IsTracked tick = record {
      at = λ w h.
          claim-Tracked (claim_exits tick.symbol tick.price) (λ p u. tick.price) target_price w
            ((flips-IsWellFormed w.book h.shape).0 tick.symbol tick.price)
            (claim_exits-OpenBut tick.symbol tick.price w.book h.shape h.steady)
            (claim_exits-SamePositions tick.symbol tick.price w.book)
            (claim_exits-IsPaper tick.symbol tick.price w.book h.paper)
            (claim_exits-IsHeld tick.symbol tick.price w.book h.shape) h;
    }

    pub liquidate_all-IsTracked : (reason : ExitReason) → IsTracked rows0 (liquidate_all ans reason)
    unfolding liquidate_all claim
    liquidate_all-IsTracked reason = record {
      at = λ w h.
          after-IsTracked rows0 _ _ _ (λ u. IsTracked-pure rows0 _)
            (claim-Tracked claim_all_open last_or_entry reason w
              (flips-IsWellFormed w.book h.shape).1 (claim_all_open-OpenBut w.book h.shape h.steady)
              (claim_all_open-SamePositions w.book) (claim_all_open-IsPaper w.book h.paper)
              (claim_all_open-IsHeld w.book h.shape) h);
    }
