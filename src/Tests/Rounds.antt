-- ===== src/Tests/Rounds.antt =====
-- A round of the reconciler of src/quant_execution/domain/services.py at concrete inputs.
use quant_execution.Base.{
  codes, ◌≡◌, refl, false, some, [], ◌∷◌, if◌then◌else◌, text_eq, text_keys, nat_keys,
}
use quant_execution.Base.Dict.{lookup}
use quant_execution.Base.Int.{pos}
use quant_execution.Domain.Enums.{pending_entry, exiting}
use quant_execution.Domain.Records.{Position}
use quant_execution.Positions.{pending_and_exiting}
use quant_execution.Positions.Invariant.{IsWellFormed}
use quant_execution.Services.Reconciler.{reconcile_once, fill_of}
use quant_execution.Services.Reconciler.Settled.{reconcile_once_settles}
use quant_execution.Services.World.{answer, Answers, fetch, capture, ok, World}
use quant_execution.Tests.Data.{order_of, answers, world_of, position, apple}

abbrev sold_one : Position
sold_one = record (position false exiting) {
  trade_id = 2;
  exit_broker_order_id = some (codes "o-2");
}

-- An entry and an exit, both at the broker.
abbrev two_world : World
two_world = world_of ((apple, (1, position false pending_entry) ∷ (2, sold_one) ∷ []) ∷ [])

-- The entry is filled, the exit canceled.
abbrev final_answers : Answers
final_answers = record (answers (pos 0) (answer (order_of (codes "filled")))) {
  get_order = λ id.
      answer (order_of (if text_eq id (codes "o-1") then codes "filled" else codes "canceled"));
}

two_world-IsWellFormed : IsWellFormed two_world.book
unfolding lookup
two_world-IsWellFormed = record {
  keys = (refl, tt);
  buckets = (
    record {
      ids = (refl, (refl, tt));
      placed = ((refl, refl), ((refl, refl), tt));
      occupied = λ e. cc e;
    },
    tt,
  );
}

reconcile_once_settles_example :
    let (result, w') = reconcile_once final_answers two_world in
    (result ≡ ok 2)
    × (pending_and_exiting w'.book ≡ [])
    × (w'.calls ≡ fetch (codes "o-1") ∷ capture 5 ∷ fetch (codes "o-2") ∷ [])
unfolding pending_and_exiting fill_of text_eq
reconcile_once_settles_example =
    reconcile_once_settles final_answers two_world two_world-IsWellFormed (refl, (refl, tt))
