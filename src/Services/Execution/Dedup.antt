-- ===== src/Services/Execution/Dedup.antt =====
-- Lemmas about the first block of `execute`, which drops a signal whose key is taken.
use quant_execution.Base.{
  Text, ◌≡◌, ap, ◌∙◌, true, ◌||◌, none, arith, inl, inr, Bool-cases, contains_text, text_eq_refl,
}
use quant_execution.Domain.Records.{Tick, WatchlistEntry, MessageMeta}
use quant_execution.Services.Keys.{
  KeyState, build_idempotency_key, claim_key, attempt_of, add_key, compose_key,
}
use quant_execution.Services.Keys.Ledger.{contains-add_key, attempt_of-seen}
use quant_execution.Services.World.{Answers, ok, World, Service}
use quant_execution.Services.Execution.{execute}
use quant_execution.Services.Execution.Entries.{enter-keys}

-- The key of the current attempt of `base` is taken.
abbrev pub IsTaken : Text → KeyState → Type 0
IsTaken base ks = contains_text ks.seen (compose_key base (attempt_of base ks)) ≡ true

claim_key-IsTaken : (base : Text) (ks : KeyState) → IsTaken base (claim_key base ks).1
unfolding claim_key
claim_key-IsTaken base ks =
    elim (Bool-cases (contains_text ks.seen (compose_key base (attempt_of base ks)))) [
      | inl old ↦ rw (old, claim_key) old
      | inr new ↦
          rw (new, claim_key)
            (let key = compose_key base (attempt_of base ks) in
              ap (λ a. contains_text (add_key key ks.seen) (compose_key base a))
                (attempt_of-seen base ks (add_key key ks.seen))
              ∙ contains-add_key key key ks.seen
              ∙ ap (λ b. b || contains_text ks.seen key) (text_eq_refl key))
    ]

-- A signal whose key is taken gives no trade, and nothing is written, called or changed.
pub execute_taken :
    (sv : Service) (ans : Answers) (tick : Tick) (entry : WatchlistEntry) (provenance : MessageMeta)
    (w : World)
    → IsTaken (build_idempotency_key sv.mode entry tick ans.now) w.keys
    → execute sv ans tick entry provenance w ≡ (ok none, w)
unfolding execute claim_key
execute_taken sv ans tick entry provenance w taken = ground arith

execute-keys :
    (sv : Service) (ans : Answers) (tick : Tick) (entry : WatchlistEntry) (provenance : MessageMeta)
    (w : World)
    → (execute sv ans tick entry provenance w).1.keys
      ≡ (claim_key (build_idempotency_key sv.mode entry tick ans.now) w.keys).1
unfolding execute
execute-keys sv ans tick entry provenance w = (enter-keys sv ans tick entry provenance _).at _

-- A signal that was executed, whatever the broker, the cash service or the sizing answered, is not
-- executed again by the next call with the same base key: that call gives no trade and changes
-- nothing.
pub execute_again :
    (sv : Service) (ans ans' : Answers) (tick tick' : Tick) (entry entry' : WatchlistEntry)
    (provenance provenance' : MessageMeta) (w : World)
    → build_idempotency_key sv.mode entry' tick' ans'.now
      ≡ build_idempotency_key sv.mode entry tick ans.now
    → let (result, w') = execute sv ans tick entry provenance w in
      execute sv ans' tick' entry' provenance' w' ≡ (ok none, w')
execute_again sv ans ans' tick tick' entry entry' provenance provenance' w same =
    execute_taken sv ans' tick' entry' provenance' _
      (rw (same, execute-keys sv ans tick entry provenance w) (claim_key-IsTaken _ w.keys))
