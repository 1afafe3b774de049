-- ===== src/Repository/Rows/Queries.antt =====
-- What `get` of src/quant_execution/repository/trades_repo.py finds among the rows that a query
-- selects and sorts, in a table whose ids are unique.
use quant_execution.Base.{
  ℕ, ◌≡◌, refl, ◌∙◌, Bool, false, ◌&&◌, ◌||◌, Option, none, some, [], ◌∷◌, arith, if◌then◌else◌,
  nat_eq, keep_if, take_short, length, ◌≤◌,
}
use quant_execution.Base.Sort.{sort_with, insert_with, length-sort_with}
use quant_execution.Domain.Enums.{TradeStatus}
use quant_execution.Domain.Records.{Trade}
use quant_execution.Repository.Rows.{DistinctIds, get-fresh}
use quant_execution.Repository.Trades.{Table, get, has_id, same_bool, ascending, list_by_statuses}

-- The row that a selection leaves of one row.
abbrev pub kept_row : (Trade → Bool) → Option Trade → Option Trade
kept_row p none = none
kept_row p (some t) = if p t then some t else none

has_id-keep_if :
    (p : Trade → Bool) (i : ℕ) (rows : Table)
    → has_id i rows ≡ false
    → has_id i (keep_if p rows) ≡ false
unfolding has_id
has_id-keep_if p i [] h = refl
has_id-keep_if p i (t ∷ ts) h = ground (arith, has_id-keep_if p i ts)

keep_if-DistinctIds :
    (p : Trade → Bool) (rows : Table) → DistinctIds rows → DistinctIds (keep_if p rows)
keep_if-DistinctIds p [] h = tt
keep_if-DistinctIds p (t ∷ ts) h =
    ground (arith, has_id-keep_if p t.id ts, keep_if-DistinctIds p ts h.1)

get-keep_if :
    (p : Trade → Bool) (i : ℕ) (rows : Table)
    → DistinctIds rows
    → get i (keep_if p rows) ≡ kept_row p (get i rows)
unfolding get
get-keep_if p i [] h = refl
get-keep_if p i (t ∷ ts) h = ground (arith, get-keep_if p i ts h.1, get-fresh t.id ts h.0)

has_id-insert_with :
    (before : Trade → Trade → Bool) (i : ℕ) (t : Trade) (rows : Table)
    → has_id i (insert_with before t rows) ≡ (nat_eq t.id i || has_id i rows)
unfolding has_id insert_with
has_id-insert_with before i t [] = refl
has_id-insert_with before i t (u ∷ rows) = ground (arith, has_id-insert_with before i t rows)

insert_with-DistinctIds :
    (before : Trade → Trade → Bool) (t : Trade) (rows : Table)
    → has_id t.id rows ≡ false
    → DistinctIds rows
    → DistinctIds (insert_with before t rows)
unfolding has_id insert_with
insert_with-DistinctIds before t [] h k = (refl, tt)
insert_with-DistinctIds before t (u ∷ rows) h k =
    ground (arith, has_id-insert_with before u.id t rows, insert_with-DistinctIds before t rows)

get-insert_with :
    (before : Trade → Trade → Bool) (i : ℕ) (t : Trade) (rows : Table)
    → has_id t.id rows ≡ false
    → get i (insert_with before t rows) ≡ (if nat_eq t.id i then some t else get i rows)
unfolding get has_id insert_with
get-insert_with before i t [] h = refl
get-insert_with before i t (u ∷ rows) h = ground (arith, get-insert_with before i t rows)

has_id-sort_with :
    (before : Trade → Trade → Bool) (i : ℕ) (rows : Table)
    → has_id i (sort_with before rows) ≡ has_id i rows
unfolding sort_with has_id
has_id-sort_with before i [] = refl
has_id-sort_with before i (t ∷ ts) =
    ground
      (arith, has_id-insert_with before i t (sort_with before ts), has_id-sort_with before i ts)

sort_with-DistinctIds :
    (before : Trade → Trade → Bool) (rows : Table)
    → DistinctIds rows
    → DistinctIds (sort_with before rows)
unfolding sort_with
sort_with-DistinctIds before [] h = tt
sort_with-DistinctIds before (t ∷ ts) h =
    insert_with-DistinctIds before t (sort_with before ts) (has_id-sort_with before t.id ts ∙ h.0)
      (sort_with-DistinctIds before ts h.1)

get-sort_with :
    (before : Trade → Trade → Bool) (i : ℕ) (rows : Table)
    → DistinctIds rows
    → get i (sort_with before rows) ≡ get i rows
unfolding sort_with get
get-sort_with before i [] h = refl
get-sort_with before i (t ∷ ts) h = ground (
  arith,
  get-insert_with before i t (sort_with before ts),
  has_id-sort_with before t.id ts,
  get-sort_with before i ts h.1,
)

-- The rows that `list_by_statuses` asks for.
abbrev pub asked_for : (TradeStatus → Bool) → Bool → Trade → Bool
asked_for wanted is_paper t = wanted t.status && same_bool t.is_paper is_paper

-- Where the limit cuts nothing, `list_by_statuses` has each row that it asks for, once.
pub list_by_statuses-get :
    (wanted : TradeStatus → Bool) (is_paper : Bool) (limit : ℕ) (rows : Table)
    → DistinctIds rows
    → length (keep_if (asked_for wanted is_paper) rows) ≤ limit
    → DistinctIds (list_by_statuses wanted is_paper limit rows)
      × ((i : ℕ)
          → get i (list_by_statuses wanted is_paper limit rows)
            ≡ kept_row (asked_for wanted is_paper) (get i rows))
unfolding list_by_statuses
list_by_statuses-get wanted is_paper limit rows distinct fits =
    let kept = keep_if (asked_for wanted is_paper) rows in
    let by_time = ascending (λ t. t.created_at) in
    let unique = keep_if-DistinctIds (asked_for wanted is_paper) rows distinct in
    let few : length (sort_with by_time kept) ≤ limit =
      omega (arith, length-sort_with {0} by_time kept, fits) in
    rw (take_short limit (sort_with by_time kept) few) (
      sort_with-DistinctIds by_time kept unique,
      λ i.
          get-sort_with by_time i kept unique
          ∙ get-keep_if (asked_for wanted is_paper) i rows distinct,
    )
