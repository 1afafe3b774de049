-- ===== src/Workers/Executor.antt =====
-- `process_message` of src/quant_execution/workers/executor.py, as the handler of the consumer.
-- `parse` is `Tick.parse`: json, then pydantic's validation. The heartbeat counter only serves a log
-- line. Each call of the message reads its own answers of broker, cash service and clock.
use quant_execution.Base.{
  ℕ, suc, ◌+◌, ◌%◌, Text, ◌≡◌, refl, ap, ◌∙◌, Bool, true, false, Option, none, some, List, [], ◌∷◌,
  ◌⊎◌, inl, inr, if◌then◌else◌, ltb, All,
}
use quant_execution.Domain.Records.{Tick, WatchlistEntry, MessageMeta}
use quant_execution.Matching.Store.{WatchlistStore, match_entries}
use quant_execution.Services.World.{
  Answers, Result, ok, err, empty_value, parse_failure, World, Service, Exec, pure, raise, ◌>>◌,
  record_price,
}
use quant_execution.Services.Execution.{execute, check_exits}
use quant_execution.Workers.Consumer.{
  Message, Poll, committed_in, committed_in-rounds, messages_of, run, run_to_the_end, handle_all,
}

-- `is_trading_day` of a day number; day 0 is 1970-01-01, a Thursday, and Monday is weekday 0.
unfoldable pub weekday : ℕ → ℕ
weekday day = (day + 3) % 7

unfoldable pub is_trading_day : ℕ → Bool
is_trading_day day = ltb (weekday day) 5

-- The loop over the matching entries.
unfoldable pub execute_each :
    Service → (ℕ → Answers) → Tick → MessageMeta → List WatchlistEntry → Exec (Unit {0})
execute_each sv answers tick meta [] = pure tt
execute_each sv answers tick meta (entry ∷ entries) = do
  execute sv (answers 1) tick entry meta
  execute_each sv (λ n. answers (suc n)) tick meta entries

-- What a message brings when it is processed: the day in the market zone, the snapshot and the
-- answers, those of the exits first.
pub record Surroundings : Type 0 where
  pub today : ℕ
  pub store : WatchlistStore
  pub answers : ℕ → Answers

unfoldable pub process_tick : Service → Surroundings → MessageMeta → Tick → Exec (Unit {0})
process_tick sv here meta tick = do
  record_price tick.symbol tick.price
  execute_each sv here.answers tick meta (match_entries tick.symbol tick.price here.store)
  check_exits (here.answers 0) tick

abbrev pub parsed : Service → Surroundings → MessageMeta → Option Tick → Exec (Unit {0})
parsed sv here meta none = raise parse_failure
parsed sv here meta (some tick) = process_tick sv here meta tick

abbrev pub valued :
    (Text → Option Tick) → Service → Surroundings → MessageMeta → Option Text → Exec (Unit {0})
valued parse sv here meta none = raise empty_value
valued parse sv here meta (some value) = parsed sv here meta (parse value)

-- `process_message`
unfoldable pub process_message :
    (Text → Option Tick) → Service → Surroundings → Message → Exec (Unit {0})
process_message parse sv here m =
    if is_trading_day here.today then valued parse sv here m.meta m.value else pure tt

abbrev has_raised : {A : Type 0} → Result A → Bool
has_raised (ok a) = false
has_raised (err e) = true

-- The handler given to `TickConsumer.run`, where each message finds its own surroundings.
abbrev pub handler :
    (Text → Option Tick) → Service → (Message → Surroundings) → Message → World → Bool × World
handler parse sv around m w =
    let done = process_message parse sv (around m) m w in (has_raised done.0, done.1)

-- The message is no tick to act on: it came on a weekend, without a value, or with one that does
-- not parse.
abbrev pub IsSkipped : (Text → Option Tick) → (Message → Surroundings) → Message → Type 0
IsSkipped parse around m =
    (is_trading_day (around m).today ≡ false)
    ⊎ ((m.value ≡ none) ⊎ ((v : Text) × (m.value ≡ some v) × (parse v ≡ none)))

valued_stays :
    (parse : Text → Option Tick) (sv : Service) (here : Surroundings) (meta : MessageMeta)
    (value : Option Text) (w : World)
    → (value ≡ none) ⊎ ((v : Text) × (value ≡ some v) × (parse v ≡ none))
    → (valued parse sv here meta value w).1 ≡ w
valued_stays parse sv here meta none w h = refl
valued_stays parse sv here meta (some value) w (inl empty) = cc
valued_stays parse sv here meta (some value) w (inr (v, has, bad)) =
    let unparsed : parse value ≡ none = cc in rw (unparsed, parsed) refl

on_day :
    (b : Bool) (m : Exec (Unit {0})) (w : World)
    → (m w).1 ≡ w
    → ((if b then m else pure tt) w).1 ≡ w
on_day true m w h = h
on_day false m w h = refl

skipped_stays :
    (parse : Text → Option Tick) (sv : Service) (around : Message → Surroundings) (m : Message)
    (w : World)
    → IsSkipped parse around m
    → (handler parse sv around m w).1 ≡ w
unfolding process_message
skipped_stays parse sv around m w (inl weekend) = rw weekend refl
skipped_stays parse sv around m w (inr rest) =
    on_day (is_trading_day (around m).today) _ w
      (valued_stays parse sv (around m) m.meta m.value w rest)

skip_all :
    (parse : Text → Option Tick) (sv : Service) (around : Message → Surroundings)
    (ms : List Message) (w : World)
    → All (IsSkipped parse around) ms
    → handle_all (handler parse sv around) ms w ≡ w
skip_all parse sv around [] w h = refl
skip_all parse sv around (m ∷ ms) w h =
    ap (handle_all (handler parse sv around) ms) (skipped_stays parse sv around m w h.0)
    ∙ skip_all parse sv around ms w h.1

-- Messages that are no ticks to act on leave prices, keys, book, writes and calls as they were, and
-- are committed past: the run goes on to the stop event.
pub skipped_are_committed :
    (parse : Text → Option Tick) (sv : Service) (around : Message → Surroundings)
    (commits : Message → Bool) (polls : List Poll) (w : World)
    → All (IsSkipped parse around) (messages_of polls)
    → All (λ m. commits m ≡ true) (messages_of polls)
    → let c = run (handler parse sv around) commits polls w in
      (c.state ≡ w) × (committed_in c.acts ≡ messages_of polls) × (c.stopped ≡ true)
skipped_are_committed parse sv around commits polls w skipped goes =
    let (all, acts, state, ends) = run_to_the_end (handler parse sv around) commits polls w goes in
    (
      state ∙ skip_all parse sv around (messages_of polls) w skipped,
      ap committed_in acts ∙ committed_in-rounds (messages_of polls),
      ends,
    )
