-- ===== src/Positions/Invariant.antt =====
-- The shape of the book: each key once, no empty bucket, each position under its own symbol and id.
use quant_execution.Base.{
  ℕ, Text, ◌≡◌, ◌≢◌, refl, none, [], ◌∷◌, arith, inl, inr, ◌==◌, Bool-cases, Option-cases,
  text_keys, nat_keys, All,
}
use quant_execution.Base.Dict.{
  Distinct, lookup, insert, erase, insert-Distinct, erase-Distinct, lookup-All, insert-All,
  erase-All,
}
use quant_execution.Domain.Records.{Position}
use quant_execution.Positions.{
  Bucket, Book, bucket_of, store_bucket, open_position, remove, modify, modify_in,
}

-- A position stands under its own id, and names the bucket's symbol.
abbrev pub Placed : Text → ℕ × Position → Type 0
Placed s e = (e.1.trade_id ≡ e.0) × (e.1.symbol ≡ s)

pub record BucketOk (e : Text × Bucket) : Type 0 where
  pub ids : Distinct e.1
  pub placed : All (Placed e.0) e.1
  pub occupied : e.1 ≢ []

pub record IsWellFormed (book : Book) : Type 0 where
  pub keys : Distinct book
  pub buckets : All BucketOk book

pub bucket_of-Ok :
    (s : Text) (book : Book)
    → IsWellFormed book
    → Distinct (bucket_of s book) × All (Placed s) (bucket_of s book)
bucket_of-Ok s book w = elim (Option-cases (lookup s book)) [
  | inl gone ↦ rw (gone, bucket_of) (tt, tt)
  | inr (b, held) ↦
      let ok = lookup-All BucketOk s b book w.buckets held in
      rw (held, bucket_of) (ok.ids, ok.placed)
]

insert-ne-nil : (i : ℕ) (p : Position) (b : Bucket) → insert i p b ≢ []
unfolding insert
insert-ne-nil i p [] e = cc
insert-ne-nil i p ((j, q) ∷ b) e = ground arith

-- `open` keeps the shape.
pub open_position-IsWellFormed :
    (p : Position) (book : Book) → IsWellFormed book → IsWellFormed (open_position p book)
unfolding open_position
open_position-IsWellFormed p book w =
    let ok = bucket_of-Ok p.symbol book w in
    record {
      keys = insert-Distinct p.symbol _ book w.keys;
      buckets =
          insert-All BucketOk p.symbol _ book
            (record {
              ids = insert-Distinct p.trade_id p _ ok.0;
              placed = insert-All (Placed p.symbol) p.trade_id p _ (refl, refl) ok.1;
              occupied = insert-ne-nil p.trade_id p _;
            })
            w.buckets;
    }

store_bucket-IsWellFormed :
    (s : Text) (b : Bucket) (book : Book)
    → IsWellFormed book
    → Distinct b
    → All (Placed s) b
    → IsWellFormed (store_bucket s b book)
store_bucket-IsWellFormed s [] book w ids placed = record {
  keys = erase-Distinct s book w.keys;
  buckets = erase-All BucketOk s book w.buckets;
}
store_bucket-IsWellFormed s (e ∷ b) book w ids placed = record {
  keys = insert-Distinct s _ book w.keys;
  buckets =
      insert-All BucketOk s _ book (record { ids = ids; placed = placed; occupied = λ h. cc })
        w.buckets;
}

-- `remove` keeps the shape: a bucket that it empties is deleted.
pub remove-IsWellFormed :
    (p : Position) (book : Book) → IsWellFormed book → IsWellFormed (remove p book)
unfolding remove
remove-IsWellFormed p book w = elim (Option-cases (lookup p.symbol book)) [
  | inl gone ↦ rw (gone, remove) w
  | inr (b, held) ↦
      let ok = lookup-All BucketOk p.symbol b book w.buckets held in
      rw (held, remove)
        (store_bucket-IsWellFormed p.symbol (erase p.trade_id b) book w
          (erase-Distinct p.trade_id b ok.ids) (erase-All (Placed p.symbol) p.trade_id b ok.placed))
]

-- An assignment that keeps the position's id and symbol keeps the shape.
module _ (f : Position → Position)
    (keep : (q : Position) → ((f q).trade_id ≡ q.trade_id) × ((f q).symbol ≡ q.symbol)) where
  lookup-modify_in : (i j : ℕ) (b : Bucket) → lookup j b ≡ none → lookup j (modify_in i f b) ≡ none
  unfolding lookup modify_in
  lookup-modify_in i j [] h = refl
  lookup-modify_in i j ((k, q) ∷ b) h = ground (arith, lookup-modify_in i j b)

  modify_in-Distinct : (i : ℕ) (b : Bucket) → Distinct b → Distinct (modify_in i f b)
  unfolding modify_in
  modify_in-Distinct i [] h = tt
  modify_in-Distinct i ((k, q) ∷ b) h =
      ground (arith, modify_in-Distinct i b h.1, lookup-modify_in i k b)

  modify_in-Placed :
      (s : Text) (i : ℕ) (b : Bucket) → All (Placed s) b → All (Placed s) (modify_in i f b)
  unfolding modify_in
  modify_in-Placed s i [] h = tt
  modify_in-Placed s i ((k, q) ∷ b) h = ground (arith, modify_in-Placed s i b h.1, keep q)

  modify_in-ne-nil : (i : ℕ) (b : Bucket) → b ≢ [] → modify_in i f b ≢ []
  unfolding modify_in
  modify_in-ne-nil i [] h e = h refl
  modify_in-ne-nil i ((k, q) ∷ b) h e = ground arith

  lookup-modify :
      (p : Position) (t : Text) (book : Book)
      → lookup t book ≡ none
      → lookup t (modify f p book) ≡ none
  unfolding lookup modify
  lookup-modify p t [] h = refl
  lookup-modify p t ((s, b) ∷ book) h = ground (arith, lookup-modify p t book)

  modify-Distinct : (p : Position) (book : Book) → Distinct book → Distinct (modify f p book)
  unfolding modify
  modify-Distinct p [] h = tt
  modify-Distinct p ((s, b) ∷ book) h =
      ground (arith, modify-Distinct p book h.1, lookup-modify p s book)

  modify-buckets : (p : Position) (book : Book) → All BucketOk book → All BucketOk (modify f p book)
  unfolding modify
  modify-buckets p [] h = tt
  modify-buckets p ((s, b) ∷ book) h = elim (Bool-cases (s == p.symbol)) [
    | inl same ↦ rw same (
      record {
        ids = modify_in-Distinct p.trade_id b h.0.ids;
        placed = modify_in-Placed s p.trade_id b h.0.placed;
        occupied = modify_in-ne-nil p.trade_id b h.0.occupied;
      },
      h.1,
    )
    | inr other ↦ rw other (h.0, modify-buckets p book h.1)
  ]

  pub modify-IsWellFormed :
      (p : Position) (book : Book) → IsWellFormed book → IsWellFormed (modify f p book)
  modify-IsWellFormed p book w = record {
    keys = modify-Distinct p book w.keys;
    buckets = modify-buckets p book w.buckets;
  }
