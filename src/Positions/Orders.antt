-- ===== src/Positions/Orders.antt =====
-- The positions of src/quant_execution/domain/positions.py that are being exited, and their orders.
use quant_execution.Base.{
  ℕ, Text, ◌≡◌, refl, Bool, true, false, Option, none, some, List, [], ◌∷◌, arith, inl, inr,
  text_eq_iff, Option-cases, text_keys, nat_keys,
}
use quant_execution.Base.Dict.{lookup, lookup-All}
use quant_execution.Domain.Decimal.{Decimal}
use quant_execution.Domain.Enums.{PositionState, pending_entry, opened, exiting}
use quant_execution.Domain.Records.{Position}
use quant_execution.Positions.{
  Bucket, Book, open_position, remove, find, modify, claim_exits, claim_all_open, exit_triggered,
}
use quant_execution.Positions.Entries.{
  find-open_position, find-remove, find-modify, find-claim_exits, find-claim_all_open, claim_one,
}
use quant_execution.Positions.Invariant.{BucketOk, IsWellFormed, bucket_of-Ok}
use quant_execution.Positions.Open.{is_among, claim_in-is_among, claim_all_open-is_among}

abbrev pub ordered : PositionState → Option Text → Bool
ordered exiting none = false
ordered exiting (some id) = true
ordered pending_entry id = true
ordered opened id = true

-- The position is not being exited, or the id of its exit order is known.
abbrev pub has_order : Position → Bool
has_order p = ordered p.state p.exit_broker_order_id

-- Every position of the book that is being exited has an order, but for those.
pub record Ordered (ps : List Position) (book : Book) : Type 0 where
  pub at :
      (s : Text) (i : ℕ) (p : Position)
      → find s i book ≡ some p
      → is_among s i ps ≡ false
      → has_order p ≡ true

pub remove-Ordered :
    (p : Position) (ps : List Position) (book : Book)
    → IsWellFormed book
    → Ordered (p ∷ ps) book
    → Ordered ps (remove p book)
unfolding is_among
remove-Ordered p ps book shape h = record {
  at = λ s i q found others.
      ground
        (arith, find-remove p book s i shape.keys (bucket_of-Ok p.symbol book shape).0, h.at s i q);
}

-- A book without exceptions is one with any.
pub Ordered-but : (p : Position) (book : Book) → Ordered [] book → Ordered (p ∷ []) book
unfolding is_among
Ordered-but p book h = record { at = λ s i q found others. h.at s i q found refl }

pub modify-Ordered :
    (f : Position → Position) (p : Position) (ps : List Position) (book : Book)
    → ((q : Position) → has_order (f q) ≡ true)
    → Ordered (p ∷ ps) book
    → Ordered ps (modify f p book)
unfolding is_among
modify-Ordered f p ps book gives h = record {
  at = λ s i q found others. elim (Option-cases (find s i book)) [
    | inl gone ↦ ground (arith, find-modify f p book s i)
    | inr (r, there) ↦ ground (arith, find-modify f p book s i, gives r, h.at s i r there)
  ];
}

-- An assignment that keeps the state and the exit order.
pub modify-Ordered_same :
    (f : Position → Position) (p : Position) (book : Book)
    → ((q : Position) → has_order (f q) ≡ has_order q)
    → Ordered [] book
    → Ordered [] (modify f p book)
unfolding is_among
modify-Ordered_same f p book same h = record {
  at = λ s i q found others. elim (Option-cases (find s i book)) [
    | inl gone ↦ ground (arith, find-modify f p book s i)
    | inr (r, there) ↦ ground (arith, find-modify f p book s i, same r, h.at s i r there refl)
  ];
}

pub open_position-Ordered :
    (p : Position) (book : Book)
    → has_order p ≡ true
    → Ordered [] book
    → Ordered [] (open_position p book)
unfolding is_among
open_position-Ordered p book gives h = record {
  at = λ s i q found others. ground (arith, find-open_position p book s i, h.at s i q);
}

pub claim_exits-Ordered :
    (s : Text) (price : Decimal) (book : Book)
    → IsWellFormed book
    → Ordered [] book
    → Ordered (claim_exits s price book).1 (claim_exits s price book).0
unfolding is_among
claim_exits-Ordered s price book shape h = elim (Option-cases (lookup s book)) [
  | inl gone ↦ unfold claim_exits in rw (gone, claim_exits) h
  | inr (b, held) ↦ record { at = λ t i q found others. claimed b held t i q found others }
]
  where
    claimed :
        (b : Bucket)
        → lookup s book ≡ some b
        → (t : Text) (i : ℕ) (q : Position) → find t i (claim_exits s price book).0 ≡ some q
        → is_among t i (claim_exits s price book).1 ≡ false
        → has_order q ≡ true
    claimed b held t i q found others = elim (Option-cases (find t i book)) [
      | inl none_there ↦ ground (arith, find-claim_exits s t price i book)
      | inr (p, there) ↦
          unfold claim_exits claim_one find in
          ground (
            arith,
            find-claim_exits s t price i book,
            h.at t i p there refl,
            text_eq_iff s t,
            claim_in-is_among s (exit_triggered price) i p b
                (lookup-All BucketOk s b book shape.buckets held).placed,
          )
    ]

pub claim_all_open-Ordered :
    (book : Book)
    → IsWellFormed book
    → Ordered [] book
    → Ordered (claim_all_open book).1 (claim_all_open book).0
unfolding is_among
claim_all_open-Ordered book shape h = record {
  at = λ t i q found others. elim (Option-cases (find t i book)) [
    | inl none_there ↦ ground (arith, find-claim_all_open t i book)
    | inr (p, there) ↦
        unfold claim_one in
        ground (
          arith,
          find-claim_all_open t i book,
          h.at t i p there refl,
          claim_all_open-is_among t i p book shape.buckets there,
        )
  ];
}
