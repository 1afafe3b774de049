-- ===== src/Services/Liquidator/Emptied.antt =====
-- `liquidate_all` and `maybe_liquidate` of src/quant_execution/domain/services.py on a book of open
-- paper positions.
use quant_execution.Base.{◌≡◌, refl, sym, ap, subst, true, some, List, [], ◌∷◌, All}
use quant_execution.Domain.Clock.{ClockTime, Moment, has_reached}
use quant_execution.Domain.Decimal.{Decimal}
use quant_execution.Domain.Enums.{ExitReason, market_close}
use quant_execution.Domain.Records.{Position}
use quant_execution.Positions.{book_len, claim_all_open}
use quant_execution.Positions.Emptied.{
  HoldsOnly, HoldsOnly-nil, remove-HoldsOnly, claim_all_open-HoldsOnly, claim_all_open_counts,
}
use quant_execution.Positions.Flips.{flips-IsWellFormed}
use quant_execution.Positions.Invariant.{IsWellFormed, remove-IsWellFormed}
use quant_execution.Positions.Open.{OpenBut}
use quant_execution.Services.Execution.{
  exit_paper, submit_exits, claim, liquidate_all, last_or_entry,
}
use quant_execution.Services.Execution.Paper.{IsPaper, PaperBook, submit_exit-paper}
use quant_execution.Services.Execution.Paper.Handlers.{claim_all_open-IsPaper}
use quant_execution.Services.Liquidator.{Liquidator, not_run_on, liquidate_at, maybe_liquidate}
use quant_execution.Services.World.{Answers, Result, ok, World, Exec, ◌>>◌}

module _ (ans : Answers) where
  -- The action returns `a`, and leaves an empty book.
  abbrev Empties : {A : Type 0} → A → Result A × World → Type 0
  Empties a done = (done.0 ≡ ok a) × (done.1.book ≡ [])

  submit_exits-Empties :
      (price : Position → World → Decimal) (reason : ExitReason) (ps : List Position) (w : World)
      → IsWellFormed w.book
      → HoldsOnly ps w.book
      → All IsPaper ps
      → Empties tt (submit_exits ans price reason ps w)
  unfolding submit_exits exit_paper
  submit_exits-Empties price reason [] w shape h paper = (refl, HoldsOnly-nil w.book shape h)
  submit_exits-Empties price reason (p ∷ ps) w shape h paper =
      let at = price p w in
      subst (λ (m : Exec (Unit {0})). Empties tt ((m >> submit_exits ans price reason ps) w))
        (sym (submit_exit-paper ans p at reason paper.0))
        (submit_exits-Empties price reason ps (exit_paper ans p at reason w).1
          (remove-IsWellFormed p w.book shape) (remove-HoldsOnly p ps w.book shape h) paper.1)

  pub liquidate_all-Empties :
      (reason : ExitReason) (w : World)
      → IsWellFormed w.book
      → PaperBook w.book
      → OpenBut [] w.book
      → Empties (book_len w.book) (liquidate_all ans reason w)
  unfolding liquidate_all claim
  liquidate_all-Empties reason w shape paper steady =
      let done =
        submit_exits-Empties last_or_entry reason (claim_all_open w.book).1
          (record w { book = (claim_all_open w.book).0 }) (flips-IsWellFormed w.book shape).1
          (claim_all_open-HoldsOnly w.book shape steady) (claim_all_open-IsPaper w.book paper).1 in
      rw done.0 (ap ok (claim_all_open_counts w.book shape steady), done.1)

  pub maybe_liquidate-Empties :
      (now : Moment) (lq : Liquidator) (t : ClockTime) (w : World)
      → lq.close_time ≡ some t
      → has_reached now t ≡ true
      → not_run_on lq.last_run now.day ≡ true
      → Empties (book_len w.book) (liquidate_all ans market_close w)
      → let after_check = maybe_liquidate now ans lq w in
        Empties (book_len w.book) (after_check.1, after_check.2)
  unfolding maybe_liquidate
  maybe_liquidate-Empties now lq t w closes due first done =
      rw (closes, liquidate_at) (rw (due, first) done)
