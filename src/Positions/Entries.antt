-- ===== src/Positions/Entries.antt =====
-- Lemmas about what the book holds under a symbol and a trade id, for each operation.
use quant_execution.Base.{
  ℕ, Text, ◌≡◌, refl, Bool, true, ◌&&◌, none, some, [], ◌∷◌, arith, inl, inr, if◌then◌else◌,
  Option-cases, text_keys, nat_keys, text_eq, text_eq_iff, nat_eq,
}
use mathlib.Core.Option
use quant_execution.Base.Dict.{Distinct, lookup, insert, erase, lookup-insert, lookup-erase}
use quant_execution.Domain.Enums.{exiting, is_opened}
use quant_execution.Domain.Decimal.{Decimal}
use quant_execution.Domain.Records.{Position}
use quant_execution.Positions.{
  Bucket, Book, bucket_of, store_bucket, open_position, remove, exit_triggered, set_state, claim_in,
  claim_exits, claim_all_open, find, modify, modify_in,
}

-- `open` adds or replaces the position under its symbol and id, and nothing else.
pub find-open_position :
    (p : Position) (book : Book) (s : Text) (i : ℕ)
    → find s i (open_position p book)
      ≡ (if text_eq p.symbol s && nat_eq p.trade_id i then some p else find s i book)
unfolding find open_position
find-open_position p book s i = ground (
  arith,
  lookup-insert p.symbol s (insert p.trade_id p (bucket_of p.symbol book)) book,
  lookup-insert p.trade_id i p (bucket_of p.symbol book),
  text_eq_iff p.symbol s,
)

unfoldable pub claim_one : (Position → Bool) → Position → Position
claim_one test p = if is_opened p.state && test p then set_state exiting p else p

pub lookup-claim_in :
    (test : Position → Bool) (i : ℕ) (b : Bucket)
    → lookup i (claim_in test b).0 ≡ Option.map (claim_one test) (lookup i b)
unfolding lookup claim_in claim_one
lookup-claim_in test i [] = refl
lookup-claim_in test i ((j, q) ∷ b) = ground (arith, lookup-claim_in test i b)

lookup_nil : (i : ℕ) → lookup {K = ℕ} {V = Position} i [] ≡ none
unfolding lookup
lookup_nil i = refl

-- A claim flips exactly the open positions of its symbol that reach their target, and leaves every
-- other entry as it was.
pub find-claim_exits :
    (s t : Text) (price : Decimal) (i : ℕ) (book : Book)
    → find t i (claim_exits s price book).0 ≡ (
        if text_eq s t
        then Option.map (claim_one (exit_triggered price)) (find t i book)
        else find t i book)
unfolding find claim_exits
find-claim_exits s t price i book = elim (Option-cases (lookup s book)) [
  | inl gone ↦ ground (arith, text_eq_iff s t, lookup_nil i)
  | inr (b, held) ↦ ground (
    arith,
    text_eq_iff s t,
    lookup-insert s t (claim_in (exit_triggered price) b).0 book,
    lookup-claim_in (exit_triggered price) i b,
  )
]

-- The market-close claim flips exactly the open positions.
pub find-claim_all_open :
    (t : Text) (i : ℕ) (book : Book)
    → find t i (claim_all_open book).0 ≡ Option.map (claim_one (λ _. true)) (find t i book)
unfolding find claim_all_open lookup
find-claim_all_open t i [] = refl
find-claim_all_open t i ((s, b) ∷ book) =
    ground (arith, lookup-claim_in (λ _. true) i b, find-claim_all_open t i book)

bucket_of-store_bucket :
    (s t : Text) (b : Bucket) (book : Book)
    → Distinct book
    → bucket_of t (store_bucket s b book) ≡ (if text_eq s t then b else bucket_of t book)
bucket_of-store_bucket s t [] book keys = ground (arith, lookup-erase s t book keys)
bucket_of-store_bucket s t (e ∷ b) book keys = ground (arith, lookup-insert s t (e ∷ b) book)

-- In a book with distinct keys, `remove` takes away the position under its symbol and id, and
-- leaves every other entry.
pub find-remove :
    (p : Position) (book : Book) (s : Text) (i : ℕ)
    → Distinct book
    → Distinct (bucket_of p.symbol book)
    → find s i (remove p book)
      ≡ (if text_eq p.symbol s && nat_eq p.trade_id i then none else find s i book)
unfolding find remove
find-remove p book s i keys ids = elim (Option-cases (lookup p.symbol book)) [
  | inl gone ↦ ground (arith, text_eq_iff p.symbol s, lookup_nil i)
  | inr (b, held) ↦ ground (
    arith,
    text_eq_iff p.symbol s,
    bucket_of-store_bucket p.symbol s (erase p.trade_id b) book keys,
    lookup-erase p.trade_id i b (rw (held, bucket_of) at ids),
  )
]

lookup-modify_in :
    (f : Position → Position) (k i : ℕ) (b : Bucket)
    → lookup i (modify_in k f b) ≡ (if nat_eq k i then Option.map f (lookup i b) else lookup i b)
unfolding lookup modify_in
lookup-modify_in f k i [] = ground arith
lookup-modify_in f k i ((j, q) ∷ b) = ground (arith, lookup-modify_in f k i b)

-- An assignment through a position changes the entry under its symbol and id, and no other.
pub find-modify :
    (f : Position → Position) (p : Position) (book : Book) (s : Text) (i : ℕ)
    → find s i (modify f p book) ≡ (
        if text_eq p.symbol s && nat_eq p.trade_id i
        then Option.map f (find s i book)
        else find s i book)
unfolding find modify lookup
find-modify f p [] s i = ground arith
find-modify f p ((t, b) ∷ book) s i = ground (
  arith,
  text_eq_iff p.symbol s,
  text_eq_iff t p.symbol,
  text_eq_iff t s,
  lookup-modify_in f p.trade_id i b,
  find-modify f p book s i,
)
