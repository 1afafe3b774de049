-- ===== src/Pnl/Reporter.antt =====
-- `class DailyPnlReporter` of src/quant_execution/domain/pnl.py.
-- `combine` is `datetime.combine(day, time, tzinfo=tz)` as an instant: the zone rules are zoneinfo's.
-- Taking a day from an aware `datetime` keeps its wall time, so the window starts at the close time
-- of the day before.
pub mod Windows
pub mod Loop
pub mod Counts
use quant_execution.Base.{
  ℕ, ◌-◌, Bool, true, false, ◌&&◌, not, Option, none, some, List, [], ◌∷◌, if◌then◌else◌, nat_eq,
}
use quant_execution.Domain.Enums.{ExecutionMode, paper, live, is_paper_mode}
use quant_execution.Domain.Clock.{ClockTime, Moment, has_reached}
use quant_execution.Repository.Trades.{Table, list_closed_between}
use quant_execution.Repository.DailyPnl.{PnlTable, upsert}
use quant_execution.Pnl.{DailyPnlStats, compute_daily_pnl}

-- `self._last_run`, a date per mode.
pub record LastRun : Type 0 where
  pub paper_run : Option ℕ
  pub live_run : Option ℕ

unfoldable pub last_run : ExecutionMode → LastRun → Option ℕ
last_run paper r = r.paper_run
last_run live r = r.live_run

unfoldable pub mark_run : ExecutionMode → ℕ → LastRun → LastRun
mark_run paper today r = record r { paper_run = some today }
mark_run live today r = record r { live_run = some today }

-- The tables of one database.
pub record Database : Type 0 where
  pub trades : Table
  pub daily_pnl : PnlTable

-- What `datetime.now(tz)` gives: the wall clock and its instant.
pub record Reading : Type 0 where
  pub wall : Moment
  pub instant : ℕ

-- `list_closed_between`'s default limit.
abbrev pub row_limit : ℕ
row_limit = 100000

unfoldable pub report_for :
    (ℕ → ClockTime → ℕ) → ExecutionMode → ClockTime → Reading → Table → DailyPnlStats
report_for combine mode close now rows =
    compute_daily_pnl
      (list_closed_between (combine (now.wall.day - 1) close) now.instant (is_paper_mode mode)
        row_limit rows)
      now.wall.day mode

-- The outcome of a check: not due, an exception, or the figures.
pub data Outcome : Type 0 where
  idle failed : Outcome
  reported : DailyPnlStats → Outcome

unfoldable pub has_run : Option ℕ → ℕ → Bool
has_run none today = false
has_run (some d) today = nat_eq d today

-- The unit of work; an exception, where `commits` is false, leaves the tables as they were.
unfoldable pub write_report :
    Bool → (ℕ → ClockTime → ℕ) → ExecutionMode → ClockTime → Reading → Database → Outcome × Database
write_report false combine mode close now db = (failed, db)
write_report true combine mode close now db =
    let stats = report_for combine mode close now db.trades in
    (reported stats, record db { daily_pnl = upsert stats db.daily_pnl })

-- `_maybe_report_mode`: the day is marked before the work.
unfoldable pub maybe_report_mode :
    Bool
    → (ℕ → ClockTime → ℕ)
    → ExecutionMode
    → Option ClockTime
    → Reading
    → LastRun × Database
    → Outcome × (LastRun × Database)
maybe_report_mode commits combine mode none now (r, db) = (idle, (r, db))
maybe_report_mode commits combine mode (some close) now (r, db) =
    if has_reached now.wall close && not (has_run (last_run mode r) now.wall.day)
    then (let done = write_report commits combine mode close now db in
        (done.0, (mark_run mode now.wall.day r, done.1)))
    else (idle, (r, db))

abbrev more : DailyPnlStats → Option (List DailyPnlStats) → Option (List DailyPnlStats)
more stats none = none
more stats (some results) = some (stats ∷ results)

abbrev Pass : Type 0
Pass = Option (List DailyPnlStats) × (LastRun × Database)

-- What one mode of the schedule adds to the pass over the rest.
abbrev pub report_then : (LastRun × Database → Pass) → Outcome × (LastRun × Database) → Pass
report_then rest (failed, st) = (none, st)
report_then rest (idle, st) = rest st
report_then rest (reported stats, st) = let pass = rest st in (more stats pass.0, pass.1)

-- `maybe_report`: the figures of the modes that are due, `none` where one of them raises, which ends
-- the pass.
unfoldable pub maybe_report :
    (ExecutionMode → Bool)
    → (ℕ → ClockTime → ℕ)
    → List (ExecutionMode × Option ClockTime)
    → Reading
    → LastRun × Database
    → Pass
maybe_report commits combine [] now st = (some [], st)
maybe_report commits combine ((mode, close) ∷ schedule) now st =
    report_then (maybe_report commits combine schedule now)
      (maybe_report_mode (commits mode) combine mode close now st)
