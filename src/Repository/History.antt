-- ===== src/Repository/History.antt =====
-- `list_history` and `update_status` of src/quant_execution/repository/trades_repo.py.
pub mod Pages
use quant_execution.Base.{
  ℕ, ◌*◌, ◌≤◌, Text, ◌≡◌, refl, Bool, true, ◌&&◌, Option, none, some, List, [], ◌∷◌, ◌++◌, arith,
  leb, ltb, nat_eq, ◌||◌, text_eq, length, take, drop, keep_if, All, pages_by, pages_by-all,
}
use quant_execution.Base.Sort.{
  sort_with, OrderLaws, InOrder, sort_with-InOrder, sort_with-perm, take-InOrder, drop-InOrder,
  sort_with-All, take-All, drop-All, keep_if-All,
}
use quant_execution.Domain.Decimal.{Decimal}
use quant_execution.Domain.Enums.{TradeStatus, status_value}
use quant_execution.Domain.Records.{Trade, Change}
use quant_execution.Repository.Trades.{Table, same_bool, update_rows}
use mathlib.Core.List.{Perm}

-- An optional condition of a query: `None` asks for nothing.
abbrev pub wanted_mode : Option Bool → Bool → Bool
wanted_mode none is_paper = true
wanted_mode (some p) is_paper = same_bool is_paper p

abbrev pub wanted_text : Option Text → Text → Bool
wanted_text none s = true
wanted_text (some t) s = text_eq s t

-- The conditions of one history query.
pub record Filter : Type 0 where
  pub is_paper : Option Bool
  pub status : Option Text
  pub symbol : Option Text

unfoldable pub selected : Filter → Trade → Bool
selected f t =
    wanted_mode f.is_paper t.is_paper
    && (wanted_text f.status (status_value t.status) && wanted_text f.symbol t.symbol)

-- `created_at DESC`. The program asks for no more, so the order of rows with one `created_at` is the
-- database's, by ranks that may differ from one query to the next.
abbrev pub newest_first : (Trade → ℕ) → Trade → Trade → Bool
newest_first rank t u =
    ltb u.created_at t.created_at || (nat_eq u.created_at t.created_at && leb (rank t) (rank u))

-- What the query selects, before `LIMIT` and `OFFSET`.
unfoldable pub history : (Trade → ℕ) → Filter → Table → Table
history rank f rows = sort_with (newest_first rank) (keep_if (selected f) rows)

-- `list_history`
unfoldable pub list_history : (Trade → ℕ) → Filter → ℕ → ℕ → Table → Table
list_history rank f limit offset rows = take limit (drop offset (history rank f rows))

abbrev set_if {ℓ} : {A : Type ℓ} → (A → Change) → Option A → List Change
set_if column none = []
set_if column (some a) = column a ∷ []

-- The keyword arguments of `update_status` that are not `None`.
pub record StatusFields : Type 0 where
  pub broker_order_id : Option Text
  pub filled_quantity : Option Decimal
  pub filled_avg_price : Option Decimal
  pub cash_hold_id : Option ℕ
  pub error_code : Option Text
  pub error_detail : Option Text
  pub submitted_at : Option ℕ
  pub filled_at : Option ℕ

unfoldable pub status_changes : TradeStatus → StatusFields → List Change
status_changes status f =
    Change.status status
    ∷ (set_if Change.broker_order_id f.broker_order_id
        ++ (set_if (λ q. Change.filled_quantity (some q)) f.filled_quantity
            ++ (set_if (λ p. Change.filled_avg_price (some p)) f.filled_avg_price
                ++ (set_if Change.cash_hold_id f.cash_hold_id
                    ++ (set_if Change.error_code f.error_code
                        ++ (set_if Change.error_detail f.error_detail
                            ++ (set_if Change.submitted_at f.submitted_at
                                ++ set_if Change.filled_at f.filled_at)))))))

-- `update_status` of a loaded row, with its flush.
unfoldable pub update_status : Trade → TradeStatus → StatusFields → Table → Table
update_status t status f rows = update_rows t.id (status_changes status f) rows

pub newest_first-IsOrder : (rank : Trade → ℕ) → OrderLaws (newest_first rank)
newest_first-IsOrder rank = record {
  total = λ t u h. ground arith;
  trans = λ t u v h k. ground arith;
}

-- A page of the history holds only selected rows, newest first, at most `limit` of them; the
-- history itself holds exactly the selected rows.
pub list_history_lem :
    (rank : Trade → ℕ) (f : Filter) (limit offset : ℕ) (rows : Table)
    → All (λ t. selected f t ≡ true) (list_history rank f limit offset rows)
      × InOrder (newest_first rank) (list_history rank f limit offset rows)
      × Perm (history rank f rows) (keep_if (selected f) rows)
unfolding list_history history
list_history_lem rank f limit offset rows =
    let kept = keep_if (selected f) rows in
    let sorted = sort_with (newest_first rank) kept in
    let laws = newest_first-IsOrder rank in
    (
      take-All _ limit (drop offset sorted) (
          drop-All _ offset sorted
            (sort_with-All _ (newest_first rank) kept (keep_if-All (selected f) rows))),
      take-InOrder (newest_first rank) laws limit (drop offset sorted) (
          drop-InOrder (newest_first rank) laws offset sorted
            (sort_with-InOrder (newest_first rank) laws kept)),
      sort_with-perm (newest_first rank) kept,
    )
