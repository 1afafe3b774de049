-- ===== src/Positions/Awaiting.antt =====
-- The positions of src/quant_execution/domain/positions.py that `pending_and_exiting` lists, and
-- the open ones.
use quant_execution.Base.{
  ℕ, Text, ◌≡◌, refl, ap₂, true, false, some, List, [], ◌∷◌, ◌++◌, arith, inl, inr, text_eq_iff,
  Bool-cases, Option-cases, text_keys, nat_keys, All,
}
use quant_execution.Base.Dict.{Distinct, lookup}
use quant_execution.Domain.Enums.{is_opened}
use quant_execution.Domain.Records.{Position}
use quant_execution.Positions.{Bucket, Book, awaiting_in, pending_and_exiting, find, modify}
use quant_execution.Positions.Entries.{find-modify}
use quant_execution.Positions.Invariant.{Placed, BucketOk, IsWellFormed}
use quant_execution.Positions.Open.{OpenBut, is_among, is_among-append}

awaiting_in-is_among :
    (s : Text) (i : ℕ) (p : Position) (b : Bucket)
    → All (Placed s) b
    → lookup i b ≡ some p
    → is_opened p.state ≡ false
    → is_among s i (awaiting_in b) ≡ true
unfolding lookup awaiting_in is_among
awaiting_in-is_among s i p [] placed found waits = cc
awaiting_in-is_among s i p ((j, q) ∷ b) placed found waits =
    ground (arith, awaiting_in-is_among s i p b placed.1, text_eq_iff q.symbol s)

pending_and_exiting-is_among :
    (t : Text) (i : ℕ) (p : Position) (book : Book)
    → All BucketOk book
    → find t i book ≡ some p
    → is_opened p.state ≡ false
    → is_among t i (pending_and_exiting book) ≡ true
unfolding find lookup pending_and_exiting is_among
pending_and_exiting-is_among t i p [] ok found waits = cc
pending_and_exiting-is_among t i p ((s, b) ∷ book) ok found waits = ground (
  arith,
  text_eq_iff s t,
  is_among-append t i (awaiting_in b) (pending_and_exiting book),
  awaiting_in-is_among s i p b ok.0.placed,
  pending_and_exiting-is_among t i p book ok.1,
)

-- Every position is open but those that `pending_and_exiting` lists.
pub pending_and_exiting-OpenBut :
    (book : Book) → IsWellFormed book → OpenBut (pending_and_exiting book) book
pending_and_exiting-OpenBut book shape = record {
  at = λ s i p found others. elim (Bool-cases (is_opened p.state)) [
    | inl live ↦ live
    | inr waits ↦ ground (arith, pending_and_exiting-is_among s i p book shape.buckets found waits)
  ];
}

awaiting_in-nil :
    (b : Bucket)
    → Distinct b
    → ((i : ℕ) (p : Position) → lookup i b ≡ some p → is_opened p.state ≡ true)
    → awaiting_in b ≡ []
unfolding lookup awaiting_in
awaiting_in-nil [] ids live = refl
awaiting_in-nil ((j, q) ∷ b) ids live =
    ground (arith, live j q, awaiting_in-nil b ids.1 (λ i p found. ground (arith, live i p)))

pending_and_exiting-nil :
    (book : Book)
    → Distinct book
    → All BucketOk book
    → ((s : Text) (i : ℕ) (p : Position) → find s i book ≡ some p → is_opened p.state ≡ true)
    → pending_and_exiting book ≡ []
unfolding find lookup pending_and_exiting
pending_and_exiting-nil [] keys ok live = refl
pending_and_exiting-nil ((s, b) ∷ book) keys ok live =
    ap₂ (λ (xs ys : List Position). xs ++ ys)
      (awaiting_in-nil b ok.0.ids (λ i p found. ground (arith, live s i p, text_eq_iff s s)))
      (pending_and_exiting-nil book keys.1 ok.1
        (λ t i p found. ground (arith, live t i p, text_eq_iff s t)))

-- A book whose positions are all open has none to list.
pub OpenBut-none_await :
    (book : Book) → IsWellFormed book → OpenBut [] book → pending_and_exiting book ≡ []
unfolding is_among
OpenBut-none_await book shape h =
    pending_and_exiting-nil book shape.keys shape.buckets (λ s i p found. h.at s i p found refl)

-- An assignment that opens the position leaves one less that is not open.
pub modify-OpenBut :
    (f : Position → Position) (p : Position) (ps : List Position) (book : Book)
    → ((q : Position) → is_opened (f q).state ≡ true)
    → OpenBut (p ∷ ps) book
    → OpenBut ps (modify f p book)
unfolding is_among
modify-OpenBut f p ps book opens h = record {
  at = λ s i q found others. elim (Option-cases (find s i book)) [
    | inl gone ↦ ground (arith, find-modify f p book s i)
    | inr (r, there) ↦ ground (arith, find-modify f p book s i, opens r, h.at s i r there)
  ];
}

pub modify-OpenBut_same :
    (f : Position → Position) (p : Position) (ps : List Position) (book : Book)
    → OpenBut (p ∷ ps) book
    → OpenBut (p ∷ ps) (modify f p book)
unfolding is_among
modify-OpenBut_same f p ps book h = record {
  at = λ s i q found others. ground (arith, find-modify f p book s i, h.at s i q);
}
