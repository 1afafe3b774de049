-- ===== src/Repository/Trades.antt =====
-- src/quant_execution/repository/trades_repo.py over the rows of one session. The database is not
-- part of the program: of it the model takes that `id` is the primary key, that the index
-- `uq_trades_idempotency_key` of repository/models.py is unique, and that a query keeps the rows
-- that its conditions hold of, in the order of its key, up to its limit.
use quant_execution.Base.{
  ℕ, Text, Bool, true, false, ◌&&◌, ◌||◌, not, Option, none, some, List, [], ◌∷◌, ◌++◌,
  if◌then◌else◌, nat_eq, ltb, leb, text_eq, take, keep_if,
}
use quant_execution.Base.Sort.{sort_with}
use quant_execution.Domain.Enums.{TradeStatus, closed}
use quant_execution.Domain.Records.{Trade, Change, apply_changes}

abbrev pub Table : Type 0
Table = List Trade

abbrev pub same_bool : Bool → Bool → Bool
same_bool true b = b
same_bool false b = not b

-- `exists_by_idempotency_key`
unfoldable pub exists_by_idempotency_key : Text → Table → Bool
exists_by_idempotency_key key [] = false
exists_by_idempotency_key key (t ∷ ts) =
    text_eq t.idempotency_key key || exists_by_idempotency_key key ts

unfoldable pub has_id : ℕ → Table → Bool
has_id i [] = false
has_id i (t ∷ ts) = nat_eq t.id i || has_id i ts

-- `get`
unfoldable pub get : ℕ → Table → Option Trade
get i [] = none
get i (t ∷ ts) = if nat_eq t.id i then some t else get i ts

-- `get_by_idempotency_key`
unfoldable pub get_by_idempotency_key : Text → Table → Option Trade
get_by_idempotency_key key [] = none
get_by_idempotency_key key (t ∷ ts) =
    if text_eq t.idempotency_key key then some t else get_by_idempotency_key key ts

-- `insert`, with its flush: `none` is the `IntegrityError` of a repeated id or key.
unfoldable pub insert_row : Trade → Table → Option Table
insert_row t rows =
    if has_id t.id rows || exists_by_idempotency_key t.idempotency_key rows
    then none
    else some (rows ++ t ∷ [])

-- `UPDATE trades SET … WHERE id = trade_id`
unfoldable pub update_rows : ℕ → List Change → Table → Table
update_rows i cs [] = []
update_rows i cs (t ∷ ts) = (if nat_eq t.id i then apply_changes cs t else t) ∷ update_rows i cs ts

-- `apply_update`: nothing to do without fields.
unfoldable pub apply_update : ℕ → List Change → Table → Table
unfolding update_rows
apply_update i [] rows = rows
apply_update i (c ∷ cs) rows = update_rows i (c ∷ cs) rows

-- `ORDER BY` a key, ascending.
abbrev pub ascending : (Trade → ℕ) → Trade → Trade → Bool
ascending f t u = leb (f t) (f u)

-- `list_by_status` and `list_by_statuses`, the statuses as a test.
unfoldable pub list_by_status : (TradeStatus → Bool) → ℕ → Table → Table
list_by_status wanted limit rows =
    take limit (sort_with (ascending λ t. t.created_at) (keep_if (λ t. wanted t.status) rows))

unfoldable pub list_by_statuses : (TradeStatus → Bool) → Bool → ℕ → Table → Table
list_by_statuses wanted is_paper limit rows = take limit (
    sort_with (ascending λ t. t.created_at)
      (keep_if (λ t. wanted t.status && same_bool t.is_paper is_paper) rows))

abbrev is_closed : TradeStatus → Bool
is_closed closed = true
is_closed _ = false

-- `closed_at > start AND closed_at <= end`; NULL is in no window.
abbrev pub within : ℕ → ℕ → Option ℕ → Bool
within start end none = false
within start end (some c) = ltb start c && leb c end

abbrev pub or_zero : Option ℕ → ℕ
or_zero none = 0
or_zero (some c) = c

abbrev pub closed_within : ℕ → ℕ → Bool → Trade → Bool
closed_within start end is_paper t =
    same_bool t.is_paper is_paper && (is_closed t.status && within start end t.closed_at)

-- `list_closed_between`
unfoldable pub list_closed_between : ℕ → ℕ → Bool → ℕ → Table → Table
list_closed_between start end is_paper limit rows = take limit (
    sort_with (ascending λ t. or_zero t.closed_at)
      (keep_if (closed_within start end is_paper) rows))
