-- ===== src/Workers/Shape.antt =====
-- Lemmas about the consumer's loop and the shape of the book.
use quant_execution.Base.{
  ℕ, suc, Text, ◌≡◌, sym, subst, Bool, Option, none, some, List, [], ◌∷◌, ◌++◌, inl, inr,
}
use quant_execution.Domain.Records.{Tick, WatchlistEntry, MessageMeta}
use quant_execution.Positions.Invariant.{IsWellFormed}
use quant_execution.Services.World.{Answers, World, Service}
use quant_execution.Services.World.Shape.{
  Keeps, Keeps-bind, Keeps-if, Keeps-pure, Keeps-raise, Keeps-record_price,
}
use quant_execution.Services.Execution.Shape.{execute-Keeps, check_exits-Keeps}
use quant_execution.Workers.Consumer.{
  Message, Poll, messages_of, run, handle_all, run_at_least_once,
}
use quant_execution.Workers.Executor.{
  Surroundings, is_trading_day, execute_each, process_tick, parsed, valued, process_message,
  handler,
}

execute_each-Keeps :
    (sv : Service) (answers : ℕ → Answers) (tick : Tick) (meta : MessageMeta)
    (entries : List WatchlistEntry)
    → Keeps (execute_each sv answers tick meta entries)
unfolding execute_each
execute_each-Keeps sv answers tick meta [] = Keeps-pure tt
execute_each-Keeps sv answers tick meta (entry ∷ entries) =
    Keeps-bind _ _ (execute-Keeps sv (answers 1) tick entry meta)
      (λ t. execute_each-Keeps sv (λ n. answers (suc n)) tick meta entries)

process_tick-Keeps :
    (sv : Service) (here : Surroundings) (meta : MessageMeta) (tick : Tick)
    → Keeps (process_tick sv here meta tick)
unfolding process_tick
process_tick-Keeps sv here meta tick =
    Keeps-bind _ _ (Keeps-record_price tick.symbol tick.price) (λ u.
      Keeps-bind _ _ (execute_each-Keeps sv here.answers tick meta _)
        (λ v. check_exits-Keeps (here.answers 0) tick))

parsed-Keeps :
    (sv : Service) (here : Surroundings) (meta : MessageMeta) (t : Option Tick)
    → Keeps (parsed sv here meta t)
parsed-Keeps sv here meta none = Keeps-raise _
parsed-Keeps sv here meta (some tick) = process_tick-Keeps sv here meta tick

valued-Keeps :
    (parse : Text → Option Tick) (sv : Service) (here : Surroundings) (meta : MessageMeta)
    (v : Option Text)
    → Keeps (valued parse sv here meta v)
valued-Keeps parse sv here meta none = Keeps-raise _
valued-Keeps parse sv here meta (some v) = parsed-Keeps sv here meta (parse v)

pub process_message-Keeps :
    (parse : Text → Option Tick) (sv : Service) (here : Surroundings) (m : Message)
    → Keeps (process_message parse sv here m)
unfolding process_message
process_message-Keeps parse sv here m =
    Keeps-if (is_trading_day here.today) _ _ (valued-Keeps parse sv here m.meta m.value)
      (Keeps-pure tt)

handle_all-IsWellFormed :
    (parse : Text → Option Tick) (sv : Service) (around : Message → Surroundings)
    (ms : List Message) (w : World)
    → IsWellFormed w.book
    → IsWellFormed (handle_all (handler parse sv around) ms w).book
handle_all-IsWellFormed parse sv around [] w h = h
handle_all-IsWellFormed parse sv around (m ∷ ms) w h =
    handle_all-IsWellFormed parse sv around ms _
      ((process_message-Keeps parse sv (around m) m).at w h)

-- A run of the consumer over any polls keeps a well-formed book well-formed, whatever the messages
-- hold, the clients answer and the commits do.
pub run-IsWellFormed :
    (parse : Text → Option Tick) (sv : Service) (around : Message → Surroundings)
    (commits : Message → Bool) (polls : List Poll) (w : World)
    → IsWellFormed w.book
    → IsWellFormed (run (handler parse sv around) commits polls w).state.book
run-IsWellFormed parse sv around commits polls w h =
    elim (run_at_least_once (handler parse sv around) commits polls w) [
      | inl (all, acts, state, stops) ↦ kept (messages_of polls) state
      | inr (done, m, left, split, all, fails, acts, state, stops) ↦ kept (done ++ m ∷ []) state
    ]
  where
    kept :
        (ms : List Message)
        → (run (handler parse sv around) commits polls w).state
          ≡ handle_all (handler parse sv around) ms w
        → IsWellFormed (run (handler parse sv around) commits polls w).state.book
    kept ms acts =
        subst (λ v. IsWellFormed v.book) (sym acts) (handle_all-IsWellFormed parse sv around ms w h)
