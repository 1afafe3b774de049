-- ===== src/Pnl/Reporter/Loop.antt =====
-- `run_forever` of `class DailyPnlReporter` (src/quant_execution/domain/pnl.py): the list of its
-- wake-ups. Between two of them the executors write to the tables.
use quant_execution.Base.{
  ℕ, ◌≡◌, refl, ap, subst, sym, ◌∙◌, Bool, true, Option, none, some, List, [], ◌∷◌, All,
}
use quant_execution.Domain.Clock.{ClockTime}
use quant_execution.Domain.Enums.{ExecutionMode}
use quant_execution.Pnl.Reporter.{
  LastRun, Database, Reading, idle, has_run, last_run, maybe_report_mode, report_then, maybe_report,
}
use quant_execution.Pnl.Reporter.Windows.{ran_idle}

pub record WakeUp : Type 0 where
  pub meanwhile : Database → Database
  pub now : Reading
  pub commits : ExecutionMode → Bool

abbrev pub Schedule : Type 0
Schedule = List (ExecutionMode × Option ClockTime)

-- The loop: an exception of a pass is logged, and the loop goes on.
unfoldable pub report_loop :
    (ℕ → ClockTime → ℕ) → Schedule → List WakeUp → LastRun × Database → LastRun × Database
report_loop combine schedule [] st = st
report_loop combine schedule (u ∷ us) (r, db) =
    report_loop combine schedule us
      (maybe_report u.commits combine schedule u.now (r, u.meanwhile db)).1

-- What the executors alone do.
abbrev pub others : List WakeUp → Database → Database
others [] db = db
others (u ∷ us) db = others us (u.meanwhile db)

abbrev pub HasRun : ℕ → LastRun → ExecutionMode × Option ClockTime → Type 0
HasRun d r entry = has_run (last_run entry.0 r) d ≡ true

abbrev pub OnDay : ℕ → WakeUp → Type 0
OnDay d u = u.now.wall.day ≡ d

mode_idle :
    (commits : Bool) (combine : ℕ → ClockTime → ℕ) (entry : ExecutionMode × Option ClockTime)
    (now : Reading) (r : LastRun) (db : Database)
    → HasRun now.wall.day r entry
    → maybe_report_mode commits combine entry.0 entry.1 now (r, db) ≡ (idle, (r, db))
unfolding maybe_report_mode
mode_idle commits combine (mode, none) now r db ran = refl
mode_idle commits combine (mode, some close) now r db ran =
    ran_idle commits combine mode close now (r, db) ran

pass_idle :
    (commits : ExecutionMode → Bool) (combine : ℕ → ClockTime → ℕ) (schedule : Schedule)
    (now : Reading) (r : LastRun) (db : Database)
    → All (HasRun now.wall.day r) schedule
    → maybe_report commits combine schedule now (r, db) ≡ (some [], (r, db))
unfolding maybe_report
pass_idle commits combine [] now r db h = refl
pass_idle commits combine (entry ∷ schedule) now r db h =
    ap (report_then (maybe_report commits combine schedule now))
      (mode_idle (commits entry.0) combine entry now r db h.0)
    ∙ pass_idle commits combine schedule now r db h.1

-- Once every mode of the schedule has had its run of a day, the loop changes nothing more on that
-- day: no figures of the day are written again, and only the executors act on the tables.
pub report_loop_idle :
    (combine : ℕ → ClockTime → ℕ) (schedule : Schedule) (us : List WakeUp) (d : ℕ) (r : LastRun)
    (db : Database)
    → All (HasRun d r) schedule
    → All (OnDay d) us
    → report_loop combine schedule us (r, db) ≡ (r, others us db)
unfolding report_loop
report_loop_idle combine schedule [] d r db ran h = refl
report_loop_idle combine schedule (u ∷ us) d r db ran h =
    let ran_now = subst (λ e. All (HasRun e r) schedule) (sym h.0) ran in
    ap (λ pass. report_loop combine schedule us pass.1)
      (pass_idle u.commits combine schedule u.now r (u.meanwhile db) ran_now)
    ∙ report_loop_idle combine schedule us d r (u.meanwhile db) ran h.1
