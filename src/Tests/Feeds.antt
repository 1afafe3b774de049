-- ===== src/Tests/Feeds.antt =====
-- The clients' loops and the consumer at concrete inputs.
use quant_execution.Base.{
  ℕ, suc, ◌+◌, ◌*◌, arith, codes, ◌≡◌, ◌⊎◌, refl, Bool, true, Option, none, some, List, inr, ltb,
  if◌then◌else◌, [], ◌∷◌, take, drop,
}
use quant_execution.Base.Int.{pos}
use quant_execution.Positions.Invariant.{IsWellFormed}
use quant_execution.Clients.Notes.{
  Got, object, iterable, or_raises, fetch_page, validate_all, fetch_active_validated,
}
use quant_execution.Clients.Pages.{max_pages, fetch_active}
use quant_execution.Clients.Retry.{Attempt, payload, http_status}
use quant_execution.Workers.Consumer.{
  Message, Poll, nothing, poll_error, polled, RunsOut, BreaksOff, run, run_at_least_once,
}
use quant_execution.Workers.Executor.{Surroundings}
use quant_execution.Tests.Data.{tick, provenance, filled_answers, signal, empty_world}

-- A service with three records, two to a page; the records below six validate, so the call fails.
abbrev listed : List ℕ
listed = 4 ∷ 5 ∷ 6 ∷ []

abbrev below_six : ℕ → Option ℕ
below_six n = if ltb n 6 then some n else none

abbrev served : ℕ → Got ℕ
served o = object (iterable (take 2 (drop o listed)))

fetch_active_validated_example :
    fetch_active (λ o. or_raises (fetch_page below_six (served o))) 2
    ≡ validate_all below_six (take (max_pages * 2) listed)
fetch_active_validated_example =
    fetch_active_validated below_six listed served 2 (omega arith) (λ o. inr refl)

-- A 503, and then a payload.
abbrev attempts : ℕ → Attempt ℕ
attempts ℕ.zero = http_status 503
attempts (suc n) = payload n

abbrev message : Message
message = record { value = some (codes "{}"); meta = provenance }

abbrev polls : List Poll
polls = polled message ∷ nothing ∷ poll_error ∷ polled message ∷ []

-- Counts the messages, and raises at each.
abbrev counting : Message → ℕ → Bool × ℕ
counting m n = (true, n + 1)

run_at_least_once_example :
    RunsOut counting (λ m. true) polls 0 (run counting (λ m. true) polls 0)
    ⊎ BreaksOff counting (λ m. true) polls 0 (run counting (λ m. true) polls 0)
run_at_least_once_example = run_at_least_once counting (λ m. true) polls 0

abbrev around : Message → Surroundings
around m = record {
  today = 20000;
  store = record { tolerance = pos 0; by_symbol = (tick.symbol, signal ∷ []) ∷ [] };
  answers = λ n. filled_answers;
}

empty-IsWellFormed : IsWellFormed empty_world.book
empty-IsWellFormed = record { keys = tt; buckets = tt }
