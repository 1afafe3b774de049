-- ===== src/Tests/Routes.antt =====
-- The routes and the clients' requests at concrete inputs.
use quant_execution.Base.{
  ◌+◌, keep_if, ℕ, ◌≤◌, ◌<◌, ◌≡◌, ◌⊎◌, refl, arith, codes, Text, Bool, none, some, [], ◌∷◌, length,
  map, pages_by, text_eq,
}
use quant_execution.Api.{Library, Body, answered}
use quant_execution.Api.Pnl.{Stored, serialize, get_pnl}
use quant_execution.Api.Pnl.Laws.{shown, get_pnl-upsert}
use quant_execution.Api.Query.{
  Params, accepted, check_mode, param, read_mode, check_status, check_pagination,
}
use quant_execution.Api.Trades.{read_query, list_response, list_trades}
use quant_execution.Api.Trades.Laws.{ValidQuery, page_answer, list_trades_status, list_trades_page}
use quant_execution.Base.Dict.{lookup}
use quant_execution.Base.Sort.{InOrder}
use quant_execution.Clients.Calls.{send, Services, Account, submit_order}
use quant_execution.Clients.Calls.Replies.{Failed, posted, submit_order-answer}
use quant_execution.Clients.Retry.{payload, decided, request, request_from}
use quant_execution.Domain.Enums.{mode_value, filled, closed, paper, buy}
use quant_execution.Pnl.{DailyPnlStats, compute_daily_pnl, stats_of}
use quant_execution.Repository.DailyPnl.{upsert}
use quant_execution.Repository.History.{Filter, list_history}
use quant_execution.Repository.History.Pages.{matches, no_older, pages_cover}
use mathlib.Core.List.{Perm}
use quant_execution.Repository.Trades.{Table}
use quant_execution.Services.CloseTime.{parse_int, skip_spaces, int_digits}
use quant_execution.Tests.Data.{row, base, apple, order_of, ten_shares}

-- Ids and dates as one code each.
abbrev library : Library
library = record {
  rank = λ t. t.id;
  decimal_text = λ d. codes "0";
  instant_text = λ i. i ∷ [];
  date_text = λ d. d ∷ [];
  id_text = λ i. i ∷ [];
  quoted = λ s. s;
  read_id = λ s. elim s [ [] ↦ none | ◌∷◌ i rest ↦ some i ];
  read_date = λ s. elim s [ [] ↦ none | ◌∷◌ d rest ↦ some d ];
}

abbrev stored_trades : Table
stored_trades = row 1 base filled none ∷ row 2 (codes "other") closed (some 5) ∷ []

-- `?mode=paper&limit=1`
abbrev params : Params
params = (codes "mode", codes "paper") ∷ (codes "limit", codes "1") ∷ []

list_trades_status_example :
    (ValidQuery params × ((list_trades library params stored_trades).status ≡ 200))
    ⊎ ((¬ ValidQuery params) × ((list_trades library params stored_trades).status ≡ 400))
list_trades_status_example = list_trades_status library params stored_trades

list_trades_page_example :
    (f : Filter) × (limit : ℕ) × (offset : ℕ) × (read_query library params
      ≡ accepted (f, limit, offset))
    × (list_trades library params stored_trades ≡ page_answer library stored_trades f limit offset)
    × (1 ≤ limit)
    × (limit ≤ 500)
    × (length (list_history library.rank f limit offset stored_trades) ≤ limit)
unfolding list_trades read_query check_mode param lookup text_eq read_mode mode_value check_status
    check_pagination parse_int skip_spaces int_digits list_response
list_trades_page_example = list_trades_page library params stored_trades refl

abbrev everything : Filter
everything = record { is_paper = none; status = none; symbol = none }

-- A trade of the fourth microsecond, and one from before.
abbrev two_trades : Table
two_trades =
    record (row 3 base filled none) { created_at = 4 } ∷ row 2 (codes "other") closed (some 5) ∷ []

pages_cover_example :
    let pages =
      pages_by (λ offset. list_history (λ t. t.id + offset) everything 1 offset two_trades) 1 2 0 in
    Perm pages (keep_if (matches everything) two_trades) × InOrder no_older pages
pages_cover_example =
    pages_cover (λ offset t. t.id + offset) everything 1 2 two_trades ((ground arith, tt), (tt, tt))
      (omega arith)

abbrev stored : ℕ → Bool → Stored
stored d p = record { id = d; currency = codes "USD"; created_at = 0; updated_at = 0 }

abbrev figures : DailyPnlStats
figures = compute_daily_pnl stored_trades 20000 paper

get_pnl-upsert_example :
    get_pnl library stored (library.date_text 20000) (upsert figures [])
    ≡ answered (
        Body.day
          (library.date_text 20000)
          (length (map (serialize library stored) (shown figures [])))
          (map (serialize library stored) (shown figures [])))
unfolding compute_daily_pnl stats_of
get_pnl-upsert_example = get_pnl-upsert library stored figures [] refl tt

-- A broker that answers every attempt with a filled order.
abbrev services : Services Text
services = record {
  alpaca = λ r n. payload (codes "filled");
  cash = λ r n. payload [];
  read_order = λ j. some (order_of j);
  read_hold = λ j. some 5;
  available_balance = λ j. some j;
  read_decimal = λ s. none;
  decimal_text = λ d. codes "10";
  id_text = λ i. i ∷ [];
  last_error = λ r. [];
}

abbrev account : Account
account = record { account_id = codes "a-1"; currency = codes "USD"; max_attempts = 3 }

submit_order-answer_example :
    (i : ℕ) × (j : Text) × (i < 3)
    × (services.alpaca (posted services apple ten_shares buy base) i ≡ payload j)
    × (services.read_order j ≡ some (order_of (codes "filled")))
    × ((k : ℕ) → k < i → Failed (services.alpaca (posted services apple ten_shares buy base) k))
unfolding submit_order send request request_from decided
submit_order-answer_example =
    submit_order-answer services account apple ten_shares buy base (order_of (codes "filled")) refl
