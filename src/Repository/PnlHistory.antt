-- ===== src/Repository/PnlHistory.antt =====
-- `list_for_date` and `list_history` of src/quant_execution/repository/pnl_repo.py.
pub mod OneRow
use quant_execution.Base.{
  ℕ, ◌*◌, ◌≤◌, ◌≡◌, refl, Bool, true, false, ◌&&◌, ◌||◌, not, Option, none, some, List, [], ◌∷◌,
  ◌++◌, arith, inl, inr, if◌then◌else◌, nat_eq, nat_eq_iff, ltb, length, take, drop, keep_if,
  keep_if-yes, keep_if-no, Bool-cases, Option-cases, pages_by, pages_by-all,
}
use quant_execution.Base.Sort.{insert_with, sort_with}
use quant_execution.Pnl.{DailyPnlStats}
use quant_execution.Repository.DailyPnl.{
  PnlTable, is_for, get_for_date, replace_row, upsert, expected, skipped, get-append, get-replace,
}
use mathlib.Core.Path.{subst, subst₂, sym, ap, ap₂, ◌∙◌}
use quant_execution.Repository.History.{wanted_mode}

abbrev pub on_date : ℕ → DailyPnlStats → Bool
on_date d row = nat_eq row.trade_date d

-- `is_paper DESC`
abbrev pub paper_first : DailyPnlStats → DailyPnlStats → Bool
paper_first r s = r.is_paper || not s.is_paper

-- `list_for_date`
unfoldable pub list_for_date : ℕ → PnlTable → PnlTable
list_for_date d rows = sort_with paper_first (keep_if (on_date d) rows)

-- `trade_date DESC, is_paper DESC`
abbrev latest_first : DailyPnlStats → DailyPnlStats → Bool
latest_first r s =
    ltb s.trade_date r.trade_date || (nat_eq s.trade_date r.trade_date && paper_first r s)

-- What the query of `list_history` selects, before `LIMIT` and `OFFSET`.
unfoldable pub pnl_history : Option Bool → PnlTable → PnlTable
pnl_history mode rows = sort_with latest_first (keep_if (λ r. wanted_mode mode r.is_paper) rows)

-- `list_history`
unfoldable pub list_pnl_history : Option Bool → ℕ → ℕ → PnlTable → PnlTable
list_pnl_history mode limit offset rows = take limit (drop offset (pnl_history mode rows))

-- A client that asks for one page of the reports after another gets all of them once, in order,
-- when it asks for enough pages and the rows do not change meanwhile.
pub pnl_pages_cover :
    (mode : Option Bool) (limit n : ℕ) (rows : PnlTable)
    → length (pnl_history mode rows) ≤ n * limit
    → pages_by (λ offset. list_pnl_history mode limit offset rows) limit n 0 ≡ pnl_history mode rows
unfolding list_pnl_history
pnl_pages_cover mode limit n rows enough =
    pages_by-all (λ offset. list_pnl_history mode limit offset rows) limit (pnl_history mode rows)
      (λ offset. refl) n enough
