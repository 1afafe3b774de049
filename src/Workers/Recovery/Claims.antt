-- ===== src/Workers/Recovery/Claims.antt =====
-- The claims of src/quant_execution/domain/positions.py change states only, and return positions
-- that the book holds.
use quant_execution.Base.{
  ℕ, Text, ◌≡◌, refl, Bool, true, Option, none, some, [], ◌∷◌, arith, inl, inr, Option-cases,
  Bool-cases, text_eq_iff, text_eq_refl, nat_eq, text_keys, nat_keys, All, if◌then◌else◌, ◌&&◌,
}
use mathlib.Core.Option
use quant_execution.Base.Dict.{Distinct, lookup, lookup-All}
use quant_execution.Base.Sort.{append-All, All-map}
use quant_execution.Domain.Enums.{is_opened}
use quant_execution.Domain.Decimal.{Decimal}
use quant_execution.Domain.Records.{Position}
use quant_execution.Positions.{
  Bucket, Book, find, claim_in, claim_exits, claim_all_open, exit_triggered,
}
use quant_execution.Positions.Entries.{claim_one, find-claim_all_open, find-claim_exits}
use quant_execution.Positions.Invariant.{Placed, BucketOk, IsWellFormed}
use quant_execution.Workers.Recovery.{settled}

-- Two books hold the same positions, apart from their states.
abbrev pub SamePositions : Book → Book → Type 0
SamePositions book book' =
    (s : Text) (i : ℕ) → Option.map settled (find s i book') ≡ Option.map settled (find s i book)

settled-claim_one :
    (test : Position → Bool) (o : Option Position)
    → Option.map settled (Option.map (claim_one test) o) ≡ Option.map settled o
unfolding claim_one
settled-claim_one test none = refl
settled-claim_one test (some p) = ground arith

pub claim_exits-SamePositions :
    (s : Text) (price : Decimal) (book : Book) → SamePositions book (claim_exits s price book).0
claim_exits-SamePositions s price book t i = ground (
  arith,
  find-claim_exits s t price i book,
  settled-claim_one (exit_triggered price) (find t i book),
)

pub claim_all_open-SamePositions : (book : Book) → SamePositions book (claim_all_open book).0
claim_all_open-SamePositions book t i =
    ground (arith, find-claim_all_open t i book, settled-claim_one (λ _. true) (find t i book))

-- The book holds a position under the symbol and the id of `p`.
abbrev pub IsHeld : Book → Position → Type 0
IsHeld book p = (q : Position) × (find p.symbol p.trade_id book ≡ some q)

abbrev InBucket : Text → Bucket → Position → Type 0
InBucket s b p = (p.symbol ≡ s) × (q : Position) × (lookup p.trade_id b ≡ some q)

behind :
    (s : Text) (e : ℕ × Position) (b : Bucket) (p : Position)
    → InBucket s b p
    → InBucket s (e ∷ b) p
unfolding lookup
behind s (i, r) b p (symbol, q, found) =
    (symbol, if nat_eq i p.trade_id then r else q, ground arith)

claim_in-InBucket :
    (s : Text) (test : Position → Bool) (b : Bucket)
    → All (Placed s) b
    → All (InBucket s b) (claim_in test b).1
unfolding claim_in lookup
claim_in-InBucket s test [] h = tt
claim_in-InBucket s test ((i, p) ∷ b) h =
    let rest = All-map (behind s (i, p) b) _ (claim_in-InBucket s test b h.1) in
    elim (Bool-cases (is_opened p.state && test p)) [
      | inl taken ↦ rw taken ((h.0.1, p, ground (arith, h.0.0)), rest)
      | inr left ↦ rw left rest
    ]

in_book :
    (s : Text) (b : Bucket) (book : Book)
    → lookup s book ≡ some b
    → (p : Position) → InBucket s b p
    → IsHeld book p
unfolding find
in_book s b book held p (symbol, q, found) = (q, ground (arith, symbol))

pub claim_exits-IsHeld :
    (s : Text) (price : Decimal) (book : Book)
    → IsWellFormed book
    → All (IsHeld book) (claim_exits s price book).1
unfolding claim_exits
claim_exits-IsHeld s price book w = elim (Option-cases (lookup s book)) [
  | inl gone ↦ rw (gone, claim_exits) tt
  | inr (b, held) ↦
      let ok = lookup-All BucketOk s b book w.buckets held in
      rw (held, claim_exits)
        (All-map (in_book s b book held) _ (claim_in-InBucket s (exit_triggered price) b ok.placed))
]

later_bucket :
    (s : Text) (b : Bucket) (book : Book)
    → lookup s book ≡ none
    → (p : Position) → IsHeld book p
    → IsHeld ((s, b) ∷ book) p
unfolding find lookup
later_bucket s b book fresh p (q, found) = (q, ground (arith, text_eq_iff s p.symbol))

all_open :
    (book : Book) → Distinct book → All BucketOk book → All (IsHeld book) (claim_all_open book).1
unfolding claim_all_open
all_open [] keys ok = tt
all_open ((s, b) ∷ book) keys ok =
    append-All (IsHeld ((s, b) ∷ book)) _ _
      (All-map (in_book s b ((s, b) ∷ book) (here s b book)) _
        (claim_in-InBucket s (λ _. true) b ok.0.placed))
      (All-map (later_bucket s b book keys.0) _ (all_open book keys.1 ok.1))
  where
    here : (s : Text) (b : Bucket) (book : Book) → lookup s ((s, b) ∷ book) ≡ some b
    here s b book = unfold lookup in rw (text_eq_refl s) refl

pub claim_all_open-IsHeld :
    (book : Book) → IsWellFormed book → All (IsHeld book) (claim_all_open book).1
claim_all_open-IsHeld book w = all_open book w.keys w.buckets
