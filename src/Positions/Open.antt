-- ===== src/Positions/Open.antt =====
-- Which positions of the book of src/quant_execution/domain/positions.py are open.
use quant_execution.Base.{
  ℕ, Text, ◌≡◌, refl, Bool, true, false, ◌&&◌, ◌||◌, some, List, [], ◌∷◌, ◌++◌, arith, inl, inr,
  text_eq, text_eq_iff, nat_eq, Option-cases, text_keys, nat_keys, All,
}
use quant_execution.Base.Dict.{lookup, lookup-All}
use quant_execution.Domain.Enums.{is_opened}
use quant_execution.Domain.Decimal.{Decimal}
use quant_execution.Domain.Records.{Position}
use quant_execution.Positions.{
  Bucket, Book, open_position, remove, find, claim_in, claim_exits, claim_all_open, exit_triggered,
}
use quant_execution.Positions.Entries.{
  find-open_position, find-remove, find-claim_all_open, find-claim_exits, claim_one,
}
use quant_execution.Positions.Invariant.{Placed, BucketOk, IsWellFormed, bucket_of-Ok}

-- Whether one of the positions has that symbol and id.
unfoldable pub is_among : Text → ℕ → List Position → Bool
is_among s i [] = false
is_among s i (p ∷ ps) = (text_eq p.symbol s && nat_eq p.trade_id i) || is_among s i ps

-- Every position of the book is open, but for those.
pub record OpenBut (ps : List Position) (book : Book) : Type 0 where
  pub at :
      (s : Text) (i : ℕ) (p : Position)
      → find s i book ≡ some p
      → is_among s i ps ≡ false
      → is_opened p.state ≡ true

pub open_position-OpenBut :
    (p : Position) (book : Book)
    → is_opened p.state ≡ true
    → OpenBut [] book
    → OpenBut [] (open_position p book)
unfolding is_among
open_position-OpenBut p book live h = record {
  at = λ s i q found none_left. ground (arith, find-open_position p book s i, h.at s i q);
}

pub remove-OpenBut :
    (p : Position) (ps : List Position) (book : Book)
    → IsWellFormed book
    → OpenBut (p ∷ ps) book
    → OpenBut ps (remove p book)
unfolding is_among
remove-OpenBut p ps book shape h = record {
  at = λ s i q found others.
      ground
        (arith, find-remove p book s i shape.keys (bucket_of-Ok p.symbol book shape).0, h.at s i q);
}

pub is_among-append :
    (s : Text) (i : ℕ) (ps qs : List Position)
    → is_among s i (ps ++ qs) ≡ (is_among s i ps || is_among s i qs)
unfolding is_among
is_among-append s i [] qs = refl
is_among-append s i (p ∷ ps) qs = ground (arith, is_among-append s i ps qs)

-- An entry of a bucket that a claim flips is among the positions that it returns.
pub claim_in-is_among :
    (s : Text) (test : Position → Bool) (i : ℕ) (p : Position) (b : Bucket)
    → All (Placed s) b
    → lookup i b ≡ some p
    → (is_opened p.state && test p) ≡ true
    → is_among s i (claim_in test b).1 ≡ true
unfolding lookup claim_in is_among
claim_in-is_among s test i p [] placed found taken = cc
claim_in-is_among s test i p ((j, q) ∷ b) placed found taken =
    ground (arith, claim_in-is_among s test i p b placed.1, text_eq_iff q.symbol s)

pub claim_exits-OpenBut :
    (s : Text) (price : Decimal) (book : Book)
    → IsWellFormed book
    → OpenBut [] book
    → OpenBut (claim_exits s price book).1 (claim_exits s price book).0
unfolding is_among
claim_exits-OpenBut s price book shape h = elim (Option-cases (lookup s book)) [
  | inl gone ↦ unfold claim_exits in rw (gone, claim_exits) h
  | inr (b, held) ↦ record { at = λ t i q found others. claimed b held t i q found others }
]
  where
    claimed :
        (b : Bucket)
        → lookup s book ≡ some b
        → (t : Text) (i : ℕ) (q : Position) → find t i (claim_exits s price book).0 ≡ some q
        → is_among t i (claim_exits s price book).1 ≡ false
        → is_opened q.state ≡ true
    claimed b held t i q found others = elim (Option-cases (find t i book)) [
      | inl none_there ↦ ground (arith, find-claim_exits s t price i book)
      | inr (p, there) ↦
          unfold claim_exits claim_one find in
          ground (
            arith,
            find-claim_exits s t price i book,
            h.at t i p there refl,
            text_eq_iff s t,
            claim_in-is_among s (exit_triggered price) i p b
                (lookup-All BucketOk s b book shape.buckets held).placed,
          )
    ]

pub claim_all_open-is_among :
    (t : Text) (i : ℕ) (p : Position) (book : Book)
    → All BucketOk book
    → find t i book ≡ some p
    → is_opened p.state ≡ true
    → is_among t i (claim_all_open book).1 ≡ true
unfolding find lookup claim_all_open is_among
claim_all_open-is_among t i p [] ok found live = cc
claim_all_open-is_among t i p ((s, b) ∷ book) ok found live = ground (
  arith,
  text_eq_iff s t,
  is_among-append t i (claim_in (λ _. true) b).1 (claim_all_open book).1,
  claim_in-is_among s (λ _. true) i p b ok.0.placed,
  claim_all_open-is_among t i p book ok.1,
)

pub claim_all_open-OpenBut :
    (book : Book)
    → IsWellFormed book
    → OpenBut [] book
    → OpenBut (claim_all_open book).1 (claim_all_open book).0
unfolding is_among
claim_all_open-OpenBut book shape h = record {
  at = λ t i q found others. elim (Option-cases (find t i book)) [
    | inl none_there ↦ ground (arith, find-claim_all_open t i book)
    | inr (p, there) ↦
        unfold claim_one in
        ground (
          arith,
          find-claim_all_open t i book,
          h.at t i p there refl,
          claim_all_open-is_among t i p book shape.buckets there,
        )
  ];
}
