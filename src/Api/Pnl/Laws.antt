-- ===== src/Api/Pnl/Laws.antt =====
-- What `get_pnl` of src/quant_execution/api/routes/pnl.py answers over the reporter's rows.
use quant_execution.Api.{Library, Body, answered}
use quant_execution.Api.Pnl.{Stored, serialize, day_response, parsed_date, get_pnl}
use quant_execution.Base.{
  ℕ, Text, ◌≡◌, refl, ap, ap₂, ◌∙◌, Bool, true, false, not, Option, none, some, arith,
  if◌then◌else◌, length, map,
}
use quant_execution.Pnl.{DailyPnlStats}
use quant_execution.Repository.DailyPnl.{PnlTable, get_for_date, is_for, upsert, get-upsert}
use quant_execution.Repository.PnlHistory.{list_for_date}
use quant_execution.Repository.PnlHistory.OneRow.{
  OnePerMode, both, upsert-OnePerMode, list_for_date_lem,
}

-- The rows of the date of a report once it is written: that of the paper mode first.
abbrev pub shown : DailyPnlStats → PnlTable → PnlTable
shown stats rows =
    if stats.is_paper
    then both (some stats) (get_for_date stats.trade_date false rows)
    else both (get_for_date stats.trade_date true rows) (some stats)

-- Which of the two rows of its date a report is.
is_paper_row :
    (stats : DailyPnlStats)
    → (is_for stats.trade_date true stats ≡ stats.is_paper)
      × (is_for stats.trade_date false stats ≡ not stats.is_paper)
is_paper_row stats = (ground arith, ground arith)

shown_eq :
    (stats : DailyPnlStats) (p t f : Bool) (paper live : Option DailyPnlStats)
    → t ≡ p
    → f ≡ not p
    → both (if t then some stats else paper) (if f then some stats else live)
      ≡ (if p then both (some stats) live else both paper (some stats))
shown_eq stats true t f paper live e g = rw (e, g) refl
shown_eq stats false t f paper live e g = rw (e, g) refl

written :
    (stats : DailyPnlStats) (rows : PnlTable)
    → OnePerMode rows
    → list_for_date stats.trade_date (upsert stats rows) ≡ shown stats rows
written stats rows h =
    list_for_date_lem stats.trade_date (upsert stats rows) (upsert-OnePerMode stats rows h)
    ∙ ap₂ both (get-upsert stats rows stats.trade_date true)
        (get-upsert stats rows stats.trade_date false)
    ∙ shown_eq stats stats.is_paper _ _ _ _ (is_paper_row stats).0 (is_paper_row stats).1

day_response-shown :
    (lib : Library) (stored : ℕ → Bool → Stored) (text : Text) (stats : DailyPnlStats) (p : Bool)
    (paper live : Option DailyPnlStats)
    → let rows = if p then both (some stats) live else both paper (some stats) in
      day_response lib stored text rows
      ≡ answered (
          Body.day text
            (length (map (serialize lib stored) rows))
            (map (serialize lib stored) rows))
day_response-shown lib stored text stats true paper live = refl
day_response-shown lib stored text stats false none live = refl
day_response-shown lib stored text stats false (some r) live = refl

-- Once a report is written, `GET /pnl/<its date>` shows its figures in the place of its mode, with
-- the row that the other mode of that date had, the paper mode first.
pub get_pnl-upsert :
    (lib : Library) (stored : ℕ → Bool → Stored) (stats : DailyPnlStats) (rows : PnlTable)
    → lib.read_date (lib.date_text stats.trade_date) ≡ some stats.trade_date
    → OnePerMode rows
    → get_pnl lib stored (lib.date_text stats.trade_date) (upsert stats rows)
      ≡ answered (
          Body.day
            (lib.date_text stats.trade_date)
            (length (map (serialize lib stored) (shown stats rows)))
            (map (serialize lib stored) (shown stats rows)))
unfolding get_pnl
get_pnl-upsert lib stored stats rows reads h =
    let text = lib.date_text stats.trade_date in
    ap (parsed_date lib stored text (upsert stats rows)) reads
    ∙ ap (day_response lib stored text) (written stats rows h)
    ∙ day_response-shown lib stored text stats stats.is_paper _ _
