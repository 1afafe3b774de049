-- ===== src/Workers/Rehydration.antt =====
-- `rehydrate_positions` of src/quant_execution/workers/executor.py.
use quant_execution.Base.{
  ℕ, Text, ◌≡◌, refl, ap, ◌∙◌, true, false, Option, none, some, List, [], ◌∷◌, ◌++◌, arith,
  contains_text, text_eq, text_eq_refl, All, text_keys,
}
use quant_execution.Base.Dict.{insert, lookup-insert}
use quant_execution.Domain.Enums.{ExecutionMode, is_paper_mode}
use quant_execution.Domain.Records.{Trade}
use quant_execution.Positions.{Book, open_position}
use quant_execution.Positions.Invariant.{IsWellFormed, open_position-IsWellFormed}
use quant_execution.Repository.Trades.{Table, list_by_statuses}
use quant_execution.Services.Rehydrate.{is_rehydrated, position_from_trade}
use quant_execution.Services.Keys.{
  KeyState, compose_key, split_attempt, attempt_of, add_key, claim_key, seed,
}
use quant_execution.Services.Keys.Attempts.{IsBase, split-compose}
use quant_execution.Services.Keys.Ledger.{contains-add_key}
use quant_execution.Services.World.{World}

-- `list_by_statuses`' default limit.
abbrev pub row_limit : ℕ
row_limit = 10000

unfoldable pub open_all : List Trade → Book → Book
open_all [] book = book
open_all (t ∷ ts) book = open_all ts (open_position (position_from_trade t) book)

abbrev pub keys_in : List Trade → List Text
keys_in [] = []
keys_in (t ∷ ts) = t.idempotency_key ∷ keys_in ts

-- The loop over the trades that the query gave, and the seeding.
unfoldable pub rebuild : List Trade → World → World
rebuild trades w = record w { book = open_all trades w.book; keys = seed (keys_in trades) w.keys }

abbrev or_logged : World → Option Table → ExecutionMode → World
or_logged w none mode = w
or_logged w (some rows) mode =
    rebuild (list_by_statuses is_rehydrated (is_paper_mode mode) row_limit rows) w

-- `rehydrate_positions`; `none` is a query that raises, which is logged.
unfoldable pub rehydrate_positions : Option Table → ExecutionMode → World → World
rehydrate_positions rows mode w = or_logged w rows mode

open_all-IsWellFormed :
    (trades : List Trade) (book : Book) → IsWellFormed book → IsWellFormed (open_all trades book)
unfolding open_all
open_all-IsWellFormed [] book h = h
open_all-IsWellFormed (t ∷ ts) book h =
    open_all-IsWellFormed ts _ (open_position-IsWellFormed (position_from_trade t) book h)

seed-seen :
    (keys : List Text) (ks : KeyState) (key : Text)
    → contains_text ks.seen key ≡ true
    → contains_text (seed keys ks).seen key ≡ true
unfolding seed
seed-seen [] ks key h = h
seed-seen (k ∷ keys) ks key h =
    seed-seen keys _ key (ground (arith, contains-add_key k key ks.seen))

-- The keys have other bases.
abbrev pub OtherBases : Text → List Text → Type 0
OtherBases base keys = All (λ k. text_eq (split_attempt k).0 base ≡ false) keys

seed-attempt :
    (keys : List Text) (ks : KeyState) (base : Text)
    → OtherBases base keys
    → attempt_of base (seed keys ks) ≡ attempt_of base ks
unfolding seed attempt_of
seed-attempt [] ks base h = refl
seed-attempt (k ∷ keys) ks base h =
    seed-attempt keys _ base h.1
    ∙ ground (arith, lookup-insert (split_attempt k).0 base (split_attempt k).1 ks.attempts, h.0)

seed-append :
    (first later : List Text) (ks : KeyState)
    → seed (first ++ later) ks ≡ seed later (seed first ks)
unfolding seed
seed-append [] later ks = refl
seed-append (k ∷ first) later ks = seed-append first later _

abbrev seeded : Text → ℕ → KeyState → KeyState
seeded base n ks = record {
  seen = add_key (compose_key base n) ks.seen;
  attempts = insert base n ks.attempts;
}

seed-compose :
    (later : List Text) (base : Text) (n : ℕ) (ks : KeyState)
    → IsBase base
    → seed (compose_key base n ∷ later) ks ≡ seed later (seeded base n ks)
unfolding seed
seed-compose later base n ks plain =
    ap
      (λ p. seed later (record {
        seen = add_key (compose_key base n) ks.seen;
        attempts = insert p.0 p.1 ks.attempts;
      }))
      (split-compose base n plain)

seeded-attempt : (base : Text) (n : ℕ) (ks : KeyState) → attempt_of base (seeded base n ks) ≡ n
unfolding attempt_of
seeded-attempt base n ks = ground (arith, lookup-insert base base n ks.attempts, text_eq_refl base)

seeded-seen :
    (base : Text) (n : ℕ) (ks : KeyState)
    → contains_text (seeded base n ks).seen (compose_key base n) ≡ true
seeded-seen base n ks =
    contains-add_key (compose_key base n) (compose_key base n) ks.seen
    ∙ rw (text_eq_refl (compose_key base n)) refl

claim_taken :
    (base : Text) (n : ℕ) (ks : KeyState)
    → attempt_of base ks ≡ n
    → contains_text ks.seen (compose_key base n) ≡ true
    → claim_key base ks ≡ (none, ks)
unfolding claim_key
claim_taken base n ks current taken = rw current (rw taken refl)

-- After a restart, the base of a key that a rebuilt trade carries, and no later one of them shares,
-- is not handed out again: the attempt of that trade is current, and its key counts as seen.
pub restart_refuses :
    (before after : List Text) (base : Text) (n : ℕ) (ks : KeyState)
    → IsBase base
    → OtherBases base after
    → let restored = seed (before ++ compose_key base n ∷ after) ks in
      (attempt_of base restored ≡ n) × (claim_key base restored ≡ (none, restored))
restart_refuses before after base n ks plain others =
    let st = seeded base n (seed before ks) in
    let same : seed (before ++ compose_key base n ∷ after) ks ≡ seed after st =
      seed-append before (compose_key base n ∷ after) ks
      ∙ seed-compose after base n (seed before ks) plain in
    let current = seed-attempt after st base others ∙ seeded-attempt base n (seed before ks) in
    rw same (
      current,
      claim_taken base n (seed after st) current
          (seed-seen after st (compose_key base n) (seeded-seen base n (seed before ks))),
    )

-- Rehydration keeps a well-formed book well-formed, whatever rows the query gives.
pub rehydrate_positions-IsWellFormed :
    (rows : Option Table) (mode : ExecutionMode) (w : World)
    → IsWellFormed w.book
    → IsWellFormed (rehydrate_positions rows mode w).book
unfolding rehydrate_positions rebuild
rehydrate_positions-IsWellFormed none mode w h = h
rehydrate_positions-IsWellFormed (some rows) mode w h = open_all-IsWellFormed _ w.book h
