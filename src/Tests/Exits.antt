-- ===== src/Tests/Exits.antt =====
-- Exits and reconciliation of src/quant_execution/domain/services.py at concrete inputs.
use quant_execution.Base.{
  Text, codes, ◌≡◌, ◌≢◌, ◌++◌, refl, text_eq, true, false, none, some, [], ◌∷◌, text_keys, nat_keys,
}
use quant_execution.Base.Dict.{lookup, Distinct}
use quant_execution.Base.Int.{pos}
use quant_execution.Domain.Enums.{
  long, live, market_close, exit_side, exiting, pending_entry, exit_failed,
}
use quant_execution.Domain.Records.{Position, Change, Task}
use quant_execution.Positions.{find}
use quant_execution.Services.Rehydrate.{is_rehydrated}
use quant_execution.Services.World.{submit, refused, Answers, ok, capture, World}
use quant_execution.Services.Reconciler.{filled_order, dead_order, fill_of, apply_entry, apply_exit}
use quant_execution.Services.Reconciler.Lifecycle.{Claimed, filled_entry_priced, dead_exit_retried}
use quant_execution.Positions.Invariant.{IsWellFormed}
use quant_execution.Services.Liquidator.{Liquidator}
use quant_execution.Services.Keys.{compose_key, build_idempotency_key}
use quant_execution.Services.Execution.{submit_exit}
use quant_execution.Services.Execution.Exits.{exit_order_apart}
use quant_execution.Tests.Data.{
  signal, tick, ten_shares, order_of, answers, world_of, book_of, position, apple, at_sixteen,
}

abbrev paper_world : World
paper_world = world_of (book_of (position true exiting))

abbrev live_world : World
live_world = world_of (book_of (position false exiting))

abbrev refusing : Answers
refusing = answers (pos 0) (refused (codes "422"))

fill_of-filled : fill_of (codes "FILLED") ≡ filled_order
unfolding fill_of
fill_of-filled = refl

fill_of-canceled : fill_of (codes "canceled") ≡ dead_order
unfolding fill_of
fill_of-canceled = refl

live_world-keys : Distinct live_world.book
unfolding lookup
live_world-keys = (refl, tt)

abbrev pending_world : World
pending_world = world_of (book_of (position false pending_entry))

pending-keys : Distinct pending_world.book
unfolding lookup
pending-keys = (refl, tt)

abbrev closer : Liquidator
closer = record { close_time = some at_sixteen; last_run = none }

-- A live position with an exit order.
abbrev sold : Position
sold = record (position false exiting) { exit_broker_order_id = some (codes "o-2") }

abbrev sold_world : World
sold_world = world_of (book_of sold)

pending-IsWellFormed : IsWellFormed pending_world.book
unfolding lookup
pending-IsWellFormed = record {
  keys = (refl, tt);
  buckets = (record { ids = (refl, tt); placed = ((refl, refl), tt); occupied = λ e. cc e }, tt);
}

sold-IsWellFormed : IsWellFormed sold_world.book
unfolding lookup
sold-IsWellFormed = record {
  keys = (refl, tt);
  buckets = (record { ids = (refl, tt); placed = ((refl, refl), tt); occupied = λ e. cc e }, tt);
}

found :
    (find apple 1 pending_world.book ≡ some (position false pending_entry))
    × (find apple 1 sold_world.book ≡ some sold)
unfolding find lookup text_eq
found = (refl, refl)

filled_entry_priced_example :
    let (result, w') =
      apply_entry 9 (position false pending_entry) (order_of (codes "FILLED")) pending_world in
    (result ≡ ok tt)
    × Claimed (position false pending_entry) w'.book (record (position false pending_entry) {
      quantity = ten_shares;
      entry_price = pos 10000000000;
    })
    × (w'.calls ≡ capture 5 ∷ [])
filled_entry_priced_example =
    filled_entry_priced 9 (position false pending_entry) (order_of (codes "FILLED")) pending_world
      pending-IsWellFormed (position false pending_entry) found.0 fill_of-filled

dead_exit_retried_example :
    let (result, w') = apply_exit 9 sold (order_of (codes "canceled")) sold_world in
    (result ≡ ok tt)
    × Claimed sold w'.book (position false exiting)
    × (w'.tasks ≡ Task.update 1 (Change.status exit_failed ∷ []) ∷ [])
    × (is_rehydrated exit_failed ≡ false)
dead_exit_retried_example =
    dead_exit_retried 9 sold (order_of (codes "canceled")) sold_world sold-IsWellFormed sold found.1
      fill_of-canceled

exit_order_apart_example :
    (id : Text) × ((submit_exit refusing
        (position false exiting)
        (pos 0)
        market_close
        live_world).1.calls
      ≡ live_world.calls
        ++ submit
            (position false exiting).symbol
            (position false exiting).quantity
            (exit_side long)
            id
          ∷ [])
    × (id ≢ compose_key (build_idempotency_key live signal tick 20000) 1)
exit_order_apart_example =
    exit_order_apart refusing (position false exiting) (pos 0) market_close live_world live signal
      tick 20000 1 refl
