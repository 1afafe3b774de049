-- ===== src/Tests/Keys.antt =====
-- Keys, schedules and restarts of src/quant_execution/domain/services.py at concrete inputs.
use quant_execution.Base.{codes, ◌≡◌, refl, none, [], ◌∷◌, Text, contains_text, text_eq}
use quant_execution.Base.Dict.{insert, lookup}
use quant_execution.Domain.Enums.{mode_value, paper}
use quant_execution.Services.Keys.{
  KeyState, compose_key, split_attempt, attempt_of, claim_key, forget, discard_key, decimal,
  digits_of, seed, build_idempotency_key, add_key, isoformat, rpartition_r, civil,
}
use quant_execution.Services.Keys.Attempts.{IsBase}
use quant_execution.Services.Keys.Ledger.{
  Ledger, Step, issue, close, start, next, NoRepeat, new_ledger,
}
use quant_execution.Services.Keys.Ledger.History.{issued-NoRepeat}
use quant_execution.Workers.Rehydration.{restart_refuses}
use quant_execution.Tests.Data.{signal, tick, base}

base-IsBase : IsBase base
unfolding split_attempt rpartition_r
base-IsBase = refl

built_base : build_idempotency_key paper signal tick 0 ≡ base
unfolding build_idempotency_key mode_value isoformat civil
built_base = refl

abbrev once : KeyState
once = record { seen = base ∷ []; attempts = [] }

abbrev after_once : Ledger
after_once = record { keys = once; issued = base ∷ []; live = base ∷ [] }

abbrev after_close : Ledger
after_close = record after_once { keys = forget base once; live = [] }

-- A key is issued, its trade is closed, and the next attempt of the same signal is issued.
abbrev second_key : Text
second_key = codes "paper:AAPL::2024-10-04:r1"

abbrev after_twice : Ledger
after_twice = record {
  keys = record { seen = second_key ∷ []; attempts = (base, 1) ∷ [] };
  issued = second_key ∷ base ∷ [];
  live = second_key ∷ [];
}

issues_base : Step new_ledger after_once
unfolding claim_key contains_text compose_key add_key attempt_of lookup
issues_base = issue base base once base-IsBase refl

closes_base : Step after_once after_close
unfolding contains_text discard_key
closes_base = close base refl

issues_again : Step after_close after_twice
unfolding claim_key contains_text compose_key add_key attempt_of lookup forget insert discard_key
    split_attempt rpartition_r text_eq decimal digits_of
issues_again = issue base second_key after_twice.keys base-IsBase refl

issued-NoRepeat_example : NoRepeat (second_key ∷ base ∷ [])
issued-NoRepeat_example =
    issued-NoRepeat after_twice (next (next (next start issues_base) closes_base) issues_again)

restart_refuses_example :
    let restored =
      seed (codes "paper:MSFT::2024-10-04" ∷ compose_key base 3 ∷ []) new_ledger.keys in
    (attempt_of base restored ≡ 3) × (claim_key base restored ≡ (none, restored))
restart_refuses_example =
    restart_refuses (codes "paper:MSFT::2024-10-04" ∷ []) [] base 3 new_ledger.keys base-IsBase tt
