-- ===== src/Repository/PnlHistory/OneRow.antt =====
-- The rows of `daily_pnl` under its unique constraint on date and mode (repository/models.py).
use quant_execution.Base.{
  ℕ, ◌≡◌, refl, Bool, true, false, Option, none, some, [], ◌∷◌, ◌++◌, arith, inl, inr, nat_eq,
  nat_eq_iff, keep_if-yes, keep_if-no, Bool-cases, Option-cases,
}
use quant_execution.Base.Sort.{insert_with, sort_with}
use quant_execution.Pnl.{DailyPnlStats}
use quant_execution.Repository.DailyPnl.{
  PnlTable, is_for, get_for_date, replace_row, upsert, expected, skipped, get-append, get-replace,
}
use mathlib.Core.Path.{subst, subst₂, sym, ap, ap₂, ◌∙◌}
use quant_execution.Repository.PnlHistory.{on_date, paper_first, list_for_date}

-- `uq_daily_pnl_date_mode`: no two rows are of one date and mode.
abbrev pub OnePerMode : PnlTable → Type 0
OnePerMode [] = Unit
OnePerMode (row ∷ rows) = (get_for_date row.trade_date row.is_paper rows ≡ none) × OnePerMode rows

abbrev pub optional : Option DailyPnlStats → PnlTable
optional none = []
optional (some row) = row ∷ []

get_for_date-is_for :
    (d : ℕ) (p : Bool) (rows : PnlTable) (row : DailyPnlStats)
    → get_for_date d p rows ≡ some row
    → is_for d p row ≡ true
unfolding get_for_date
get_for_date-is_for d p [] row h = cc
get_for_date-is_for d p (r ∷ rows) row h = ground (arith, get_for_date-is_for d p rows row)

is_for→eq :
    (d : ℕ) (p : Bool) (row : DailyPnlStats)
    → is_for d p row ≡ true
    → (row.trade_date ≡ d) × (row.is_paper ≡ p)
is_for→eq d p row h = ground arith

same_row :
    (row stats : DailyPnlStats) (rows : PnlTable)
    → is_for stats.trade_date stats.is_paper row ≡ true
    → get_for_date row.trade_date row.is_paper rows ≡ none
    → get_for_date stats.trade_date stats.is_paper rows ≡ none
same_row row stats rows same gone =
    let keys = is_for→eq stats.trade_date stats.is_paper row same in
    subst₂ (λ d p. get_for_date d p rows ≡ none) keys.0 keys.1 gone

still_none :
    (row stats : DailyPnlStats) (rows now : PnlTable)
    → get_for_date row.trade_date row.is_paper now ≡ expected stats row.trade_date row.is_paper rows
    → is_for stats.trade_date stats.is_paper row ≡ false
    → get_for_date row.trade_date row.is_paper rows ≡ none
    → get_for_date row.trade_date row.is_paper now ≡ none
still_none row stats rows now e apart gone = ground arith

append-OnePerMode :
    (stats : DailyPnlStats) (rows : PnlTable)
    → get_for_date stats.trade_date stats.is_paper rows ≡ none
    → OnePerMode rows
    → OnePerMode (rows ++ stats ∷ [])
unfolding get_for_date
append-OnePerMode stats [] gone h = (refl, tt)
append-OnePerMode stats (row ∷ rows) gone h =
    elim (Bool-cases (is_for stats.trade_date stats.is_paper row)) [
      | inl mine ↦ absurd (ground (arith, gone, mine))
      | inr apart ↦
          let rest = skipped _ row (get_for_date stats.trade_date stats.is_paper rows) apart gone in
          (
            still_none row stats rows _ (get-append stats rows row.trade_date row.is_paper rest)
                apart h.0,
            append-OnePerMode stats rows rest h.1,
          )
    ]

replace-OnePerMode :
    (stats : DailyPnlStats) (rows : PnlTable) (old : DailyPnlStats)
    → get_for_date stats.trade_date stats.is_paper rows ≡ some old
    → OnePerMode rows
    → OnePerMode (replace_row stats rows)
unfolding replace_row get_for_date
replace-OnePerMode stats [] old found h = tt
replace-OnePerMode stats (row ∷ rows) old found h =
    elim (Bool-cases (is_for stats.trade_date stats.is_paper row)) [
      | inl mine ↦ rw mine (same_row row stats rows mine h.0, h.1)
      | inr apart ↦ rw apart (
          let rest =
            skipped _ row (get_for_date stats.trade_date stats.is_paper rows) apart found in
          (
            still_none row stats rows _
                (get-replace stats rows row.trade_date row.is_paper old rest) apart h.0,
            replace-OnePerMode stats rows old rest h.1,
          ))
    ]

-- The reporter's `upsert` keeps one row for each date and mode.
pub upsert-OnePerMode :
    (stats : DailyPnlStats) (rows : PnlTable) → OnePerMode rows → OnePerMode (upsert stats rows)
unfolding upsert
upsert-OnePerMode stats rows h =
    elim (Option-cases (get_for_date stats.trade_date stats.is_paper rows)) [
      | inl gone ↦ rw gone (append-OnePerMode stats rows gone h)
      | inr (old, found) ↦ rw found (replace-OnePerMode stats rows old found h)
    ]

abbrev pub both : Option DailyPnlStats → Option DailyPnlStats → PnlTable
both paper live = optional paper ++ optional live

-- One row of the date before the rows that the sort has placed.
placed_first :
    (row : DailyPnlStats) (live : Option DailyPnlStats)
    → row.is_paper ≡ true
    → insert_with paper_first row (both none live) ≡ both (some row) live
unfolding insert_with
placed_first row none p = refl
placed_first row (some r) p = ground arith

placed_last :
    (row : DailyPnlStats) (paper : Option DailyPnlStats)
    → row.is_paper ≡ false
    → ((r : DailyPnlStats) → paper ≡ some r → r.is_paper ≡ true)
    → insert_with paper_first row (both paper none) ≡ both paper (some row)
unfolding insert_with
placed_last row none p h = refl
placed_last row (some r) p h = rw (p, h r refl) refl

get_for_date-IsMode :
    (d : ℕ) (p : Bool) (rows : PnlTable) (row : DailyPnlStats)
    → get_for_date d p rows ≡ some row
    → row.is_paper ≡ p
get_for_date-IsMode d p rows row h = (is_for→eq d p row (get_for_date-is_for d p rows row h)).1

get_here :
    (d : ℕ) (p : Bool) (row : DailyPnlStats) (rows : PnlTable)
    → is_for d p row ≡ true
    → get_for_date d p (row ∷ rows) ≡ some row
unfolding get_for_date
get_here d p row rows h = rw h refl

get_later :
    (d : ℕ) (p : Bool) (row : DailyPnlStats) (rows : PnlTable)
    → is_for d p row ≡ false
    → get_for_date d p (row ∷ rows) ≡ get_for_date d p rows
unfolding get_for_date
get_later d p row rows h = rw h refl

-- The sorted rows of a date when one more is put before them.
listed_step :
    (d : ℕ) (row : DailyPnlStats) (rows : PnlTable)
    → nat_eq row.trade_date d ≡ true
    → get_for_date d row.is_paper rows ≡ none
    → insert_with paper_first row (both (get_for_date d true rows) (get_for_date d false rows))
      ≡ both (get_for_date d true (row ∷ rows)) (get_for_date d false (row ∷ rows))
listed_step d row rows here gone = elim (Bool-cases row.is_paper) [
  | inl paper ↦
      let none_there = subst (λ p. get_for_date d p rows ≡ none) paper gone in
      rw none_there (placed_first row (get_for_date d false rows) paper)
      ∙ sym (
          ap₂ both (get_here d true row rows (ground arith))
            (get_later d false row rows (ground arith)))
  | inr live ↦
      let none_there = subst (λ p. get_for_date d p rows ≡ none) live gone in
      rw none_there
        (placed_last row (get_for_date d true rows) live (get_for_date-IsMode d true rows))
      ∙ sym (
          ap₂ both (get_later d true row rows (ground arith))
            (get_here d false row rows (ground arith)))
]

-- The listing of a date is the row of its paper mode and then that of its live mode, of those that
-- there are.
pub list_for_date_lem :
    (d : ℕ) (rows : PnlTable)
    → OnePerMode rows
    → list_for_date d rows ≡ both (get_for_date d true rows) (get_for_date d false rows)
unfolding list_for_date sort_with get_for_date
list_for_date_lem d [] h = refl
list_for_date_lem d (row ∷ rows) h = elim (Bool-cases (nat_eq row.trade_date d)) [
  | inl here ↦
      let gone =
        subst (λ e. get_for_date e row.is_paper rows ≡ none) ((nat_eq_iff row.trade_date d).0 here)
          h.0 in
      ap (sort_with paper_first) (keep_if-yes (on_date d) row rows here)
      ∙ (ap (insert_with paper_first row) (list_for_date_lem d rows h.1)
          ∙ listed_step d row rows here gone)
  | inr other ↦
      ap (sort_with paper_first) (keep_if-no (on_date d) row rows other)
      ∙ list_for_date_lem d rows h.1
      ∙ sym (
          ap₂ both (get_later d true row rows (ground arith))
            (get_later d false row rows (ground arith)))
]
