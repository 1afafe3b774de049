-- ===== src/Workers/Process.antt =====
-- One executor process (src/quant_execution/workers/executor.py) as the interleaving of its threads:
-- the consumer's loop, the watchlist refresher, the liquidator and, in live mode, the reconciler of
-- the three `run_forever` loops of domain/services.py and domain/matching.py. A step is one handled
-- message or one wake-up; the threads take turns at these steps. An exception is logged by the loop
-- or the consumer and ends nothing.
pub mod Safety
pub mod Orders
pub mod Restart
use quant_execution.Base.{ℕ, Text, ◌≡◌, Bool, true, false, Option, some, List, [], ◌∷◌}
use quant_execution.Domain.Clock.{Moment}
use quant_execution.Domain.Enums.{is_paper_mode}
use quant_execution.Domain.Records.{Tick}
use quant_execution.Matching.Refresher.{Refresher, Fetch, maybe_refresh}
use quant_execution.Services.Liquidator.{Liquidator, maybe_liquidate}
use quant_execution.Services.Reconciler.{reconcile_once}
use quant_execution.Services.World.{Answers, World, Service}
use quant_execution.Workers.Consumer.{Message}
use quant_execution.Workers.Executor.{Surroundings, process_message}

-- What the threads share, and the state of two of them.
pub record Process : Type 0 where
  pub world : World
  pub refresher : Refresher
  pub liquidator : Liquidator

-- The consumer handles a message with the snapshot that the refresher has loaded.
unfoldable pub on_message :
    (Text → Option Tick) → Service → ℕ → (ℕ → Answers) → Message → Process → Process
on_message parse sv today answers m p =
    let here : Surroundings = record {
      today = today;
      store = p.refresher.store;
      answers = answers;
    } in
    record p { world = (process_message parse sv here m p.world).1 }

-- The body of the refresher's loop.
unfoldable pub on_refresh : Moment → Fetch → Process → Process
on_refresh now fetch p = record p { refresher = (maybe_refresh now fetch p.refresher).1 }

-- The body of the liquidator's loop.
unfoldable pub on_close_check : Moment → Answers → Process → Process
on_close_check now ans p =
    let done = maybe_liquidate now ans p.liquidator p.world in
    record p { liquidator = done.0; world = done.2 }

-- The body of the reconciler's loop.
unfoldable pub on_reconcile : Answers → Process → Process
on_reconcile ans p = record p { world = (reconcile_once ans p.world).1 }

module _ (parse : Text → Option Tick) (sv : Service) where
  -- One turn of a thread.
  pub data Turn : Process → Process → Type 0 where
    message :
        (today : ℕ) (answers : ℕ → Answers) (m : Message) (p : Process)
        → Turn p (on_message parse sv today answers m p)
    refresh : (now : Moment) (fetch : Fetch) (p : Process) → Turn p (on_refresh now fetch p)
    close_check : (now : Moment) (ans : Answers) (p : Process) → Turn p (on_close_check now ans p)
    reconcile :
        (ans : Answers) (p : Process) → is_paper_mode sv.mode ≡ false → Turn p (on_reconcile ans p)

  -- Any number of turns.
  pub data Runs : Process → Process → Type 0 where
    here : (p : Process) → Runs p p
    turn : {p q r : Process} → Runs p q → Turn q r → Runs p r
