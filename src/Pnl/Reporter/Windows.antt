-- ===== src/Pnl/Reporter/Windows.antt =====
-- Lemmas about the window and the schedule of `_maybe_report_mode`.
use quant_execution.Base.{
  ℕ, ◌≡◌, inl, inr, Bool, true, false, ◌&&◌, some, arith, if◌then◌else◌, nat_eq, nat_eq_refl,
  Bool-cases, ap, ◌∙◌,
}
use quant_execution.Domain.Enums.{ExecutionMode, paper, live, is_paper_mode}
use quant_execution.Domain.Clock.{ClockTime, has_reached}
use quant_execution.Repository.DailyPnl.{get_for_date, get-upsert, same_bool}
use quant_execution.Pnl.{compute_daily_pnl, stats_of}
use quant_execution.Pnl.Reporter.{
  LastRun, Database, Reading, idle, last_run, mark_run, has_run, report_for, write_report,
  maybe_report_mode,
}

pub ran_idle :
    (commits : Bool) (combine : ℕ → ClockTime → ℕ) (mode : ExecutionMode) (close : ClockTime)
    (now : Reading) (st : LastRun × Database)
    → has_run (last_run mode st.0) now.wall.day ≡ true
    → maybe_report_mode commits combine mode (some close) now st ≡ (idle, st)
unfolding maybe_report_mode
ran_idle commits combine mode close now (r, db) ran = rw ran (ground arith)

mark-has_run :
    (mode : ExecutionMode) (d : ℕ) (r : LastRun)
    → has_run (last_run mode (mark_run mode d r)) d ≡ true
unfolding last_run mark_run has_run
mark-has_run paper d r = nat_eq_refl d
mark-has_run live d r = nat_eq_refl d

marked :
    (commits : Bool) (combine : ℕ → ClockTime → ℕ) (mode : ExecutionMode) (close : ClockTime)
    (now : Reading) (st : LastRun × Database)
    → has_reached now.wall close ≡ true
    → has_run
        (last_run mode (maybe_report_mode commits combine mode (some close) now st).1.0)
        now.wall.day
      ≡ true
unfolding maybe_report_mode
marked commits combine mode close now (r, db) due =
    elim (Bool-cases (has_run (last_run mode r) now.wall.day)) [
      | inl ran ↦ rw due (rw ran ran)
      | inr fresh ↦ rw due (rw fresh (mark-has_run mode now.wall.day r))
    ]

-- Once a mode was due, no further check on that day reports it, whether the unit of work committed
-- or raised.
pub report_once_a_day :
    (commits commits' : Bool) (combine : ℕ → ClockTime → ℕ) (mode : ExecutionMode)
    (close : ClockTime) (now later : Reading) (st : LastRun × Database)
    → has_reached now.wall close ≡ true
    → later.wall.day ≡ now.wall.day
    → let after = (maybe_report_mode commits combine mode (some close) now st).1 in
      maybe_report_mode commits' combine mode (some close) later after ≡ (idle, after)
report_once_a_day commits commits' combine mode close now later st due same =
    let after = (maybe_report_mode commits combine mode (some close) now st).1 in
    ran_idle commits' combine mode close later after
      (ap (has_run (last_run mode after.0)) same ∙ marked commits combine mode close now st due)

-- A mode that is due, has not run that day and whose unit of work commits has afterwards, as its row
-- of that day, the figures of the trades that `list_closed_between` gives for its window, and the
-- rows of the other days and modes are as before.
pub report_lands :
    (combine : ℕ → ClockTime → ℕ) (mode : ExecutionMode) (close : ClockTime) (now : Reading)
    (r : LastRun) (db : Database) (d : ℕ) (p : Bool)
    → has_reached now.wall close ≡ true
    → has_run (last_run mode r) now.wall.day ≡ false
    → get_for_date d p (maybe_report_mode true combine mode (some close) now (r, db)).1.1.daily_pnl
      ≡ (if nat_eq now.wall.day d && same_bool (is_paper_mode mode) p
          then some (report_for combine mode close now db.trades)
          else get_for_date d p db.daily_pnl)
unfolding maybe_report_mode write_report report_for compute_daily_pnl stats_of
report_lands combine mode close now r db d p due fresh =
    rw due (rw fresh (get-upsert (report_for combine mode close now db.trades) db.daily_pnl d p))
