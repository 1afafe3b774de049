-- ===== src/Tests/Reports.antt =====
-- Reports of src/quant_execution/domain/pnl.py at concrete inputs.
use quant_execution.Base.{ℕ, ◌+◌, ◌*◌, arith, ◌≡◌, refl, none, some, List, [], ◌∷◌}
use quant_execution.Domain.Enums.{paper, closed}
use quant_execution.Domain.Records.{Trade}
use quant_execution.Domain.Clock.{ClockTime, micros_of_day}
use quant_execution.Pnl.{compute_daily_pnl}
use quant_execution.Pnl.Figures.{IsNearest, profit, is_gain, is_loss, made_by, report_figures}
use quant_execution.Pnl.Reporter.{LastRun, Database, Reading, report_for}
use quant_execution.Pnl.Reporter.Counts.{count_of, counts_in, has_figures, reports_add}
use quant_execution.Tests.Data.{row, base, at_sixteen, afternoon, at_five_past}

abbrev sold : List Trade
sold = row 1 base closed (some 1728000000000000) ∷ []

report_figures_example :
    let stats = compute_daily_pnl sold 20000 paper in
    (stats.total_trades ≡ count_of has_figures sold)
    × (stats.winning_trades ≡ count_of (λ t. is_gain (profit t)) sold)
    × (stats.losing_trades ≡ count_of (λ t. is_loss (profit t)) sold)
    × (stats.winning_trades + stats.losing_trades + stats.breakeven_trades ≡ stats.total_trades)
    × IsNearest stats.realized_pnl (made_by sold)
report_figures_example = report_figures sold 20000 paper

-- A zone without shifts.
abbrev combine : ℕ → ClockTime → ℕ
combine day t = day * 86400000000 + micros_of_day t

-- Reports five minutes after the close, on two days.
abbrev first_day : Reading
first_day = record { wall = afternoon; instant = combine 20000 at_five_past }

abbrev next_day : Reading
next_day = record {
  wall = record { day = 20001; time = at_five_past };
  instant = combine 20001 at_five_past;
}

-- Closed a second after the first day's close.
abbrev late : List Trade
late = row 1 base closed (some (combine 20000 at_sixteen + 1000000)) ∷ []

reports_add_example :
    (report_for combine paper at_sixteen first_day late).total_trades
      + (report_for combine paper at_sixteen next_day late).total_trades
    ≡ count_of (counts_in paper (combine 19999 at_sixteen) next_day.instant) late
      + count_of (counts_in paper (combine 20000 at_sixteen) first_day.instant) late
reports_add_example =
    reports_add combine paper at_sixteen first_day next_day late (omega arith) refl (omega arith)
      (omega arith) (omega arith)

abbrev never : LastRun
never = record { paper_run = none; live_run = none }

abbrev database : Database
database = record { trades = sold; daily_pnl = [] }
