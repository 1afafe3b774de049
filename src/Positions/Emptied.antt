-- ===== src/Positions/Emptied.antt =====
-- When the book of src/quant_execution/domain/positions.py is empty, and how many `claim_all_open`
-- takes.
use quant_execution.Base.{
  ℕ, ◌+◌, Text, ◌≡◌, refl, true, some, List, [], ◌∷◌, arith, length, text_eq_refl, nat_eq_refl,
  length-append, text_keys, nat_keys, Option-cases, inl, inr,
}
use quant_execution.Base.Dict.{lookup}
use quant_execution.Domain.Enums.{is_opened}
use quant_execution.Domain.Records.{Position}
use quant_execution.Positions.{
  Bucket, Book, book_len, remove, claim_in, claim_all_open, awaiting_in, pending_and_exiting, find,
}
use quant_execution.Positions.Awaiting.{OpenBut-none_await}
use quant_execution.Positions.Entries.{find-remove, find-claim_all_open}
use quant_execution.Positions.Invariant.{IsWellFormed, bucket_of-Ok}
use quant_execution.Positions.Open.{OpenBut, is_among, claim_all_open-is_among}

-- Every position of the book is one of those.
pub record HoldsOnly (ps : List Position) (book : Book) : Type 0 where
  pub at : (s : Text) (i : ℕ) (p : Position) → find s i book ≡ some p → is_among s i ps ≡ true

pub remove-HoldsOnly :
    (p : Position) (ps : List Position) (book : Book)
    → IsWellFormed book
    → HoldsOnly (p ∷ ps) book
    → HoldsOnly ps (remove p book)
unfolding is_among
remove-HoldsOnly p ps book shape h = record {
  at = λ s i q found.
      ground
        (arith, find-remove p book s i shape.keys (bucket_of-Ok p.symbol book shape).0, h.at s i q);
}

pub HoldsOnly-nil : (book : Book) → IsWellFormed book → HoldsOnly [] book → book ≡ []
unfolding is_among find lookup
HoldsOnly-nil [] shape h = refl
HoldsOnly-nil ((s, []) ∷ book) shape h = absurd (shape.buckets.0.occupied refl)
HoldsOnly-nil ((s, (i, p) ∷ b) ∷ book) shape h =
    ground (arith, h.at s i p, text_eq_refl s, nat_eq_refl i)

-- Where all positions are open, a claim of all takes every position of the book.
pub claim_all_open-HoldsOnly :
    (book : Book)
    → IsWellFormed book
    → OpenBut [] book
    → HoldsOnly (claim_all_open book).1 (claim_all_open book).0
unfolding is_among
claim_all_open-HoldsOnly book shape h = record {
  at = λ s i q found. elim (Option-cases (find s i book)) [
    | inl gone ↦ ground (arith, find-claim_all_open s i book)
    | inr (p, there) ↦
        claim_all_open-is_among s i p book shape.buckets there (h.at s i p there refl)
  ];
}

claim_in-length :
    (b : Bucket) → length (claim_in (λ _. true) b).1 + length (awaiting_in b) ≡ length b
unfolding claim_in awaiting_in is_opened
claim_in-length [] = refl
claim_in-length ((i, p) ∷ b) = ground (arith, claim_in-length b)

claim_all_open-length :
    (book : Book)
    → length (claim_all_open book).1 + length (pending_and_exiting book) ≡ book_len book
unfolding claim_all_open pending_and_exiting book_len
claim_all_open-length [] = refl
claim_all_open-length ((s, b) ∷ book) = omega (
  arith,
  claim_in-length b,
  claim_all_open-length book,
  length-append (claim_in (λ _. true) b).1 (claim_all_open book).1,
  length-append (awaiting_in b) (pending_and_exiting book),
)

pub claim_all_open_counts :
    (book : Book)
    → IsWellFormed book
    → OpenBut [] book
    → length (claim_all_open book).1 ≡ book_len book
claim_all_open_counts book shape h =
    let sum = claim_all_open-length book in
    omega (arith, rw (OpenBut-none_await book shape h) at sum)
