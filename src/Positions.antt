-- ===== src/Positions.antt =====
-- src/quant_execution/domain/positions.py: the in-memory position book.
-- The program shares each `Position` object through the book, and reaches it by its symbol and its
-- trade id. Here the book holds the positions themselves: an assignment to a field of a position
-- is `modify`, which changes the entry under that symbol and id, and changes nothing where the
-- book holds the position no more. One call of a method is one step, as under the book's lock.
pub mod Claims
pub mod Entries
pub mod Invariant
pub mod Flips
pub mod Open
pub mod Awaiting
pub mod Emptied
pub mod Orders
use quant_execution.Base.{
  ℕ, ◌+◌, Text, Bool, true, false, ◌&&◌, not, Option, none, some, List, [], ◌∷◌, ◌++◌,
  if◌then◌else◌, ◌==◌, length, sum_map, nat_keys, text_keys, keep_if,
}
use quant_execution.Base.Dict.{Dict, lookup, insert, erase}
use quant_execution.Domain.Enums.{
  OrderSide, PositionType, long, short, PositionState, opened, exiting, exit_side, is_opened,
}
use quant_execution.Domain.Decimal.{Decimal, at_most}
use quant_execution.Domain.Records.{Position}

abbrev pub Bucket : Type 0
Bucket = Dict ℕ Position

abbrev pub Book : Type 0
Book = Dict Text Bucket

-- `Position.exit_side`
unfoldable pub position_exit_side : Position → OrderSide
position_exit_side p = exit_side p.position_type

abbrev reached : PositionType → Decimal → Option Decimal → Bool
reached t price none = false
reached long price (some target) = at_most target price
reached short price (some target) = at_most price target

-- `Position.exit_triggered`
unfoldable pub exit_triggered : Decimal → Position → Bool
exit_triggered price p = reached p.position_type price p.sell_price

-- `PositionBook.__len__`
unfoldable pub book_len : Book → ℕ
book_len book = sum_map (λ e. length e.1) book

-- `PositionBook.symbols`
unfoldable pub symbols : Book → List Text
symbols [] = []
symbols ((s, b) ∷ book) = s ∷ symbols book

abbrev pub bucket_of : Text → Book → Bucket
bucket_of s book = elim (lookup s book) [ none ↦ [] | some b ↦ b ]

-- `PositionBook.open`
unfoldable pub open_position : Position → Book → Book
open_position p book = insert p.symbol (insert p.trade_id p (bucket_of p.symbol book)) book

-- The second half of `remove`: an empty bucket is deleted.
abbrev pub store_bucket : Text → Bucket → Book → Book
store_bucket s [] book = erase s book
store_bucket s (e ∷ b) book = insert s (e ∷ b) book

-- `PositionBook.remove`
unfoldable pub remove : Position → Book → Book
remove p book = elim (lookup p.symbol book) [
  | none ↦ book
  | some b ↦ store_bucket p.symbol (erase p.trade_id b) book
]

unfoldable pub modify_in : ℕ → (Position → Position) → Bucket → Bucket
modify_in i f [] = []
modify_in i f ((j, q) ∷ b) = if j == i then (j, f q) ∷ b else (j, q) ∷ modify_in i f b

-- An assignment to fields of the object that the book holds for `p`.
unfoldable pub modify : (Position → Position) → Position → Book → Book
unfolding modify_in
modify f p [] = []
modify f p ((s, b) ∷ book) =
    if s == p.symbol then (s, modify_in p.trade_id f b) ∷ book else (s, b) ∷ modify f p book

abbrev pub set_state : PositionState → Position → Position
set_state st p = record p { state = st }

-- `PositionBook.mark_open`
unfoldable pub mark_open : Position → Book → Book
unfolding modify
mark_open = modify (set_state opened)

abbrev pub reopened : Position → Position
reopened p = record p { state = opened; exit_broker_order_id = none }

-- `PositionBook.release_exit`
unfoldable pub release_exit : Position → Book → Book
unfolding modify
release_exit = modify reopened

-- The loop of the claims over one bucket: an OPEN position that passes the test is flipped to
-- EXITING and appended to the claimed ones.
unfoldable pub claim_in : (Position → Bool) → Bucket → Bucket × List Position
claim_in test [] = ([], [])
claim_in test ((i, p) ∷ b) =
    let (b', ps) = claim_in test b in
    if is_opened p.state && test p
    then ((i, set_state exiting p) ∷ b', set_state exiting p ∷ ps)
    else ((i, p) ∷ b', ps)

-- `PositionBook.claim_exits`
unfoldable pub claim_exits : Text → Decimal → Book → Book × List Position
unfolding claim_in exit_triggered
claim_exits s price book = elim (lookup s book) [
  | none ↦ (book, [])
  | some b ↦ let (b', ps) = claim_in (exit_triggered price) b in (insert s b' book, ps)
]

-- `PositionBook.claim_all_open`
unfoldable pub claim_all_open : Book → Book × List Position
unfolding claim_in
claim_all_open [] = ([], [])
claim_all_open ((s, b) ∷ book) =
    let (b', ps) = claim_in (λ _. true) b in
    let (book', qs) = claim_all_open book in ((s, b') ∷ book', ps ++ qs)

unfoldable pub awaiting_in : Bucket → List Position
unfolding is_opened
awaiting_in [] = []
awaiting_in ((i, p) ∷ b) = if not (is_opened p.state) then p ∷ awaiting_in b else awaiting_in b

-- `PositionBook.pending_and_exiting`
unfoldable pub pending_and_exiting : Book → List Position
unfolding awaiting_in
pending_and_exiting [] = []
pending_and_exiting ((s, b) ∷ book) = awaiting_in b ++ pending_and_exiting book

-- The position that the book holds under a symbol and a trade id.
unfoldable pub find : Text → ℕ → Book → Option Position
find s i book = lookup i (bucket_of s book)
