-- ===== src/Positions/Claims.antt =====
-- Lemmas about `claim_exits` and `claim_all_open`, by the open positions of the book.
use mathlib.Core.List.{Perm, perm_middle, perm_append_comm, append_assoc}
use mathlib.Core.List.Perm
use quant_execution.Base.{
  Text, ◌≡◌, refl, Bool, true, false, List, [], ◌∷◌, ◌++◌, arith, inl, inr, if◌then◌else◌, ◌==◌,
  Bool-cases, text_keys,
}
use quant_execution.Base.Dict.{lookup, insert}
use quant_execution.Domain.Enums.{exiting, is_opened}
use quant_execution.Domain.Decimal.{Decimal}
use quant_execution.Domain.Records.{Position}
use quant_execution.Positions.{
  Bucket, Book, exit_triggered, set_state, claim_in, claim_exits, claim_all_open,
}

-- The open positions of a bucket and of a book, as the claims return them.
unfoldable pub exits_in : Bucket → List Position
exits_in [] = []
exits_in ((i, p) ∷ b) = if is_opened p.state then set_state exiting p ∷ exits_in b else exits_in b

unfoldable pub open_exits : Book → List Position
open_exits [] = []
open_exits ((s, b) ∷ book) = exits_in b ++ open_exits book

cons-perm : (x : Position) {xs ys : List Position} → Perm xs ys → Perm (x ∷ xs) (x ∷ ys)
cons-perm x h = Perm.cons x h

is_opened-exiting : is_opened exiting ≡ false
unfolding is_opened
is_opened-exiting = refl

-- What a claim takes and what it leaves open make up what was open.
claim_in-perm :
    (test : Position → Bool) (b : Bucket)
    → Perm ((claim_in test b).1 ++ exits_in (claim_in test b).0) (exits_in b)
unfolding claim_in exits_in
claim_in-perm test [] = Perm.refl []
claim_in-perm test ((i, p) ∷ b) = elim (Bool-cases (is_opened p.state)) [
  | inr shut ↦ rw shut (rw shut (claim_in-perm test b))
  | inl live ↦ elim (Bool-cases (test p)) [
    | inl hit ↦ rw (live, hit) (rw is_opened-exiting (cons-perm _ (claim_in-perm test b)))
    | inr miss ↦
        rw (live, miss)
          (rw live (
            Perm.trans (perm_middle (claim_in test b).1 (exits_in (claim_in test b).0))
              (cons-perm _ (claim_in-perm test b))))
  ]
]

middle_perm : (xs ys zs : List Position) → Perm (xs ++ (ys ++ zs)) (ys ++ (xs ++ zs))
middle_perm xs ys zs =
    rw (← append_assoc xs ys zs, ← append_assoc ys xs zs)
      (Perm.append_right zs (perm_append_comm xs ys))

-- After a claim of every open position none is open.
claim_in_all-none : (b : Bucket) → exits_in (claim_in (λ _. true) b).0 ≡ []
unfolding claim_in exits_in is_opened
claim_in_all-none [] = refl
claim_in_all-none ((i, p) ∷ b) = ground (arith, claim_in_all-none b)

pub claim_all_open-none : (book : Book) → open_exits (claim_all_open book).0 ≡ []
unfolding claim_all_open open_exits
claim_all_open-none [] = refl
claim_all_open-none ((s, b) ∷ book) = rw (claim_in_all-none b) (claim_all_open-none book)

claim_in_all : (b : Bucket) → (claim_in (λ _. true) b).1 ≡ exits_in b
unfolding claim_in exits_in is_opened
claim_in_all [] = refl
claim_in_all ((i, p) ∷ b) = ground (arith, claim_in_all b)

-- The market-close claim returns every open position, in the order of the book, and leaves none.
pub claim_all_open-all :
    (book : Book)
    → ((claim_all_open book).1 ≡ open_exits book) × (open_exits (claim_all_open book).0 ≡ [])
unfolding claim_all_open open_exits
claim_all_open-all [] = (refl, refl)
claim_all_open-all ((s, b) ∷ book) =
    (rw (claim_in_all b, (claim_all_open-all book).0), claim_all_open-none ((s, b) ∷ book))

-- `claim_exits` as one recursion on the book.
unfoldable pub claim_at : Text → (Position → Bool) → Book → Book × List Position
claim_at s test [] = ([], [])
claim_at s test ((t, b) ∷ book) =
    if t == s
    then ((t, (claim_in test b).0) ∷ book, (claim_in test b).1)
    else ((t, b) ∷ (claim_at s test book).0, (claim_at s test book).1)

pub claim_exits-eq :
    (s : Text) (price : Decimal) (book : Book)
    → claim_exits s price book ≡ claim_at s (exit_triggered price) book
unfolding claim_exits claim_at lookup insert
claim_exits-eq s price [] = refl
claim_exits-eq s price ((t, b) ∷ book) = ground (arith, claim_exits-eq s price book)

claim_at-perm :
    (s : Text) (test : Position → Bool) (book : Book)
    → Perm ((claim_at s test book).1 ++ open_exits (claim_at s test book).0) (open_exits book)
unfolding claim_at open_exits
claim_at-perm s test [] = Perm.refl []
claim_at-perm s test ((t, b) ∷ book) = elim (Bool-cases (t == s)) [
  | inl here ↦
      rw here (rw (← append_assoc) (Perm.append_right (open_exits book) (claim_in-perm test b)))
  | inr other ↦ rw other (
      Perm.trans (middle_perm _ (exits_in b) _)
        (Perm.append_left (exits_in b) (claim_at-perm s test book)))
]

-- A tick's claim and the market-close claim after it return, between them, each open position
-- once, and leave none open.
pub claims_once :
    (s : Text) (price : Decimal) (book : Book)
    → let (book', by_tick) = claim_exits s price book in
      let (book'', by_close) = claim_all_open book' in
      Perm (by_tick ++ by_close) (open_exits book) × (open_exits book'' ≡ [])
claims_once s price book = (
  rw
      (
        claim_exits-eq s price book,
        (claim_all_open-all (claim_at s (exit_triggered price) book).0).0,
      )
      (claim_at-perm s (exit_triggered price) book),
  claim_all_open-none (claim_exits s price book).0,
)
