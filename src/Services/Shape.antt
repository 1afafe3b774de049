-- ===== src/Services/Shape.antt =====
-- The handlers of src/quant_execution/domain/services.py and the shape of the book.
use quant_execution.Domain.Enums.{ExitReason}
use quant_execution.Domain.Records.{Tick, WatchlistEntry, MessageMeta}
use quant_execution.Positions.Invariant.{IsWellFormed}
use quant_execution.Services.World.{Answers, World, Service}
use quant_execution.Services.Execution.{execute, check_exits, liquidate_all}
use quant_execution.Services.Execution.Shape.{execute-Keeps, check_exits-Keeps, liquidate_all-Keeps}
use quant_execution.Services.Reconciler.{reconcile_once}
use quant_execution.Services.Reconciler.Shape.{reconcile_once-Keeps}

-- Every handler keeps a well-formed book well-formed, whatever the broker and the cash service
-- answer and whether it returns or raises: a new entry, the exits of a tick, the liquidation and a
-- reconciliation.
pub handlers-IsWellFormed :
    (sv : Service) (ans : Answers) (tick : Tick) (entry : WatchlistEntry) (provenance : MessageMeta)
    (reason : ExitReason) (w : World)
    → IsWellFormed w.book
    → IsWellFormed (execute sv ans tick entry provenance w).1.book
      × IsWellFormed (check_exits ans tick w).1.book
      × IsWellFormed (liquidate_all ans reason w).1.book
      × IsWellFormed (reconcile_once ans w).1.book
handlers-IsWellFormed sv ans tick entry provenance reason w h = (
  (execute-Keeps sv ans tick entry provenance).at w h,
  (check_exits-Keeps ans tick).at w h,
  (liquidate_all-Keeps ans reason).at w h,
  (reconcile_once-Keeps ans).at w h,
)
