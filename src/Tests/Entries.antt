-- ===== src/Tests/Entries.antt =====
-- Entries of src/quant_execution/domain/services.py at concrete inputs.
use quant_execution.Base.{ℕ, Text, List, Option, codes, ◌≡◌, refl, ◌⊎◌, Bool, false, none, [], ◌∷◌}
use quant_execution.Base.Int.{pos, ◌*ℤ◌}
use quant_execution.Domain.Enums.{buy, exiting, cash_held, is_paper_mode}
use quant_execution.Domain.Records.{Change, Task, Trade, Position}
use quant_execution.Base.Dict.{lookup}
use quant_execution.Positions.Invariant.{IsWellFormed}
use quant_execution.Services.Sizing.{sized, compute_sizing, shares_sized, divide_down}
use quant_execution.Services.World.{
  refused, invalid, ok, read_balance, hold, submit, Call, Answers, World,
}
use quant_execution.Services.Execution.{execute}
use quant_execution.Services.TradeRows.{new_trade}
use quant_execution.Services.Execution.Dedup.{execute_again}
use quant_execution.Services.Execution.Outcomes.{entered}
use quant_execution.Services.Execution.Cover.{NoOrder, Covered, ended, order_backed}
use quant_execution.Tests.Data.{
  signal, tick, provenance, paper_service, live_service, ten_shares, thousand, answers,
  filled_answers, base, empty_world, world_of, book_of, position,
}

paper_sizes :
    compute_sizing tick.price paper_service.notional_usd paper_service.quantity
    ≡ sized ten_shares thousand
unfolding compute_sizing shares_sized ◌*ℤ◌ divide_down
paper_sizes = refl

live_sizes :
    compute_sizing tick.price live_service.notional_usd live_service.quantity
    ≡ sized ten_shares thousand
unfolding compute_sizing shares_sized ◌*ℤ◌ divide_down
live_sizes = refl

live_mode : is_paper_mode live_service.mode ≡ false
unfolding is_paper_mode
live_mode = refl

order_backed_example :
    let w' =
      ended live_service filled_answers tick signal provenance base empty_world ten_shares thousand
        live_sizes live_mode in
    NoOrder live_service filled_answers tick signal provenance base empty_world ten_shares thousand
      w'
    ⊎ Covered live_service filled_answers tick signal provenance base empty_world ten_shares
        thousand w'
order_backed_example =
    order_backed live_service filled_answers tick signal provenance base empty_world ten_shares
      thousand live_sizes live_mode

-- The position that the entry opens.
abbrev position_in : Bool → Option Text → Option ℕ → Position
position_in on_paper order_id hold_id =
    entered paper_service filled_answers tick signal provenance base empty_world ten_shares thousand
      paper_sizes on_paper order_id hold_id

execute_again_example :
    let (result, w') = execute paper_service filled_answers tick signal provenance empty_world in
    execute paper_service filled_answers tick signal provenance w' ≡ (ok none, w')
execute_again_example =
    execute_again paper_service filled_answers filled_answers tick tick signal signal provenance
      provenance empty_world refl

-- The row, and what the sizing of the signal gives it.
abbrev paper_row : Trade
paper_row = new_trade paper_service filled_answers tick signal provenance base ten_shares thousand

-- The row of a live entry, for any answers at the same time.
abbrev live_row : Trade
live_row = new_trade live_service filled_answers tick signal provenance base ten_shares thousand

abbrev held_rows : List Task
held_rows =
    Task.insert live_row ∷ Task.update 1 (Change.status cash_held ∷ Change.cash_hold_id 5 ∷ []) ∷ []

abbrev order_calls : List Call
order_calls = read_balance ∷ hold thousand base ∷ submit (codes "AAPL") ten_shares buy base ∷ []

abbrev refusing : Answers
refusing = answers (pos 200000000000) (refused (codes "422"))

abbrev poor : Answers
poor = answers (pos 1) invalid

abbrev unreadable : Answers
unreadable = answers (pos 200000000000) invalid

open_book-IsWellFormed : IsWellFormed (book_of (position false exiting))
unfolding lookup
open_book-IsWellFormed = record {
  keys = (refl, tt);
  buckets = (record { ids = (refl, tt); placed = ((refl, refl), tt); occupied = λ e. cc }, tt);
}

abbrev busy : World
busy = world_of (book_of (position false exiting))
