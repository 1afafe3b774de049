-- ===== src/Positions/Flips.antt =====
-- Lemmas about the claims and the state flips, and the shape of the book.
use quant_execution.Base.{
  ℕ, Text, ◌≡◌, ◌≢◌, refl, Bool, true, none, [], ◌∷◌, arith, inl, inr, Option-cases, text_keys,
  nat_keys, All,
}
use quant_execution.Base.Dict.{Distinct, lookup, insert-Distinct, lookup-All, insert-All}
use quant_execution.Domain.Decimal.{Decimal}
use quant_execution.Domain.Records.{Position}
use quant_execution.Positions.{
  Bucket, Book, exit_triggered, claim_in, claim_exits, claim_all_open, mark_open, release_exit,
}
use quant_execution.Positions.Invariant.{Placed, BucketOk, IsWellFormed, modify-IsWellFormed}

module _ (test : Position → Bool) where
  lookup-claim_in : (j : ℕ) (b : Bucket) → lookup j b ≡ none → lookup j (claim_in test b).0 ≡ none
  unfolding lookup claim_in
  lookup-claim_in j [] h = refl
  lookup-claim_in j ((k, q) ∷ b) h = ground (arith, lookup-claim_in j b)

  claim_in-Distinct : (b : Bucket) → Distinct b → Distinct (claim_in test b).0
  unfolding claim_in
  claim_in-Distinct [] h = tt
  claim_in-Distinct ((k, q) ∷ b) h = ground (arith, claim_in-Distinct b h.1, lookup-claim_in k b)

  claim_in-Placed : (s : Text) (b : Bucket) → All (Placed s) b → All (Placed s) (claim_in test b).0
  unfolding claim_in
  claim_in-Placed s [] h = tt
  claim_in-Placed s ((k, q) ∷ b) h = ground (arith, claim_in-Placed s b h.1)

  claim_in-ne-nil : (b : Bucket) → b ≢ [] → (claim_in test b).0 ≢ []
  unfolding claim_in
  claim_in-ne-nil [] h e = h refl
  claim_in-ne-nil ((k, q) ∷ b) h e = ground arith

  claim_in-Ok : (s : Text) (b : Bucket) → BucketOk (s, b) → BucketOk (s, (claim_in test b).0)
  claim_in-Ok s b ok = record {
    ids = claim_in-Distinct b ok.ids;
    placed = claim_in-Placed s b ok.placed;
    occupied = claim_in-ne-nil b ok.occupied;
  }

lookup-claim_all_open :
    (t : Text) (book : Book) → lookup t book ≡ none → lookup t (claim_all_open book).0 ≡ none
unfolding lookup claim_all_open
lookup-claim_all_open t [] h = refl
lookup-claim_all_open t ((s, b) ∷ book) h = ground (arith, lookup-claim_all_open t book)

claim_all_open-Distinct : (book : Book) → Distinct book → Distinct (claim_all_open book).0
unfolding claim_all_open
claim_all_open-Distinct [] h = tt
claim_all_open-Distinct ((s, b) ∷ book) h =
    (lookup-claim_all_open s book h.0, claim_all_open-Distinct book h.1)

claim_all_open-buckets : (book : Book) → All BucketOk book → All BucketOk (claim_all_open book).0
unfolding claim_all_open
claim_all_open-buckets [] h = tt
claim_all_open-buckets ((s, b) ∷ book) h =
    (claim_in-Ok (λ _. true) s b h.0, claim_all_open-buckets book h.1)

-- Each flip of states keeps the shape of the book: both claims, `mark_open` and `release_exit`.
pub flips-IsWellFormed :
    (book : Book)
    → IsWellFormed book
    → ((s : Text) (price : Decimal) → IsWellFormed (claim_exits s price book).0)
      × IsWellFormed (claim_all_open book).0
      × ((p : Position) → IsWellFormed (mark_open p book))
      × ((p : Position) → IsWellFormed (release_exit p book))
flips-IsWellFormed book w = (
  by_tick,
  record {
    keys = claim_all_open-Distinct book w.keys;
    buckets = claim_all_open-buckets book w.buckets;
  },
  λ p. unfold mark_open in modify-IsWellFormed _ (λ q. (refl, refl)) p book w,
  λ p. unfold release_exit in modify-IsWellFormed _ (λ q. (refl, refl)) p book w,
)
  where
    by_tick : (s : Text) (price : Decimal) → IsWellFormed (claim_exits s price book).0
    by_tick s price = elim (Option-cases (lookup s book)) [
      | inl gone ↦ unfold claim_exits in rw (gone, claim_exits) w
      | inr (b, held) ↦
          unfold claim_exits in
          rw (held, claim_exits)
            (record {
              keys = insert-Distinct s _ book w.keys;
              buckets =
                  insert-All BucketOk s _ book
                    (claim_in-Ok (exit_triggered price) s b
                      (lookup-All BucketOk s b book w.buckets held))
                    w.buckets;
            })
    ]
