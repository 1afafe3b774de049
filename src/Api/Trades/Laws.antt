-- ===== src/Api/Trades/Laws.antt =====
-- What the routes of src/quant_execution/api/routes/trades.py answer, for any query and table.
use quant_execution.Api.{Library, Body, Response, answered}
use quant_execution.Api.Query.{
  Params, Checked, ◌>>=◌, refused, accepted, param, check_mode, check_status, check_pagination,
  check_pagination-bounds,
}
use quant_execution.Api.Query.Valid.{
  ModeText, StatusText, PageText, Decides, bind-Decides, accept-Decides, check_mode-Decides,
  check_status-Decides, check_pagination-Decides,
}
use quant_execution.Api.Trades.{
  serialize_trade, response_of, read_query, list_response, list_trades, query_of, found_trade,
  parsed_id, get_trade,
}
use quant_execution.Base.{
  ℕ, ◌≤◌, Text, ◌≡◌, refl, ap, subst, ◌∙◌, ◌⊎◌, inl, inr, Bool, false, Option, some, List, [], ◌∷◌,
  arith, codes, length, length-take, map, drop, All, nat_eq, nat_eq_iff, nat_eq_refl, Bool-cases,
  keep_if,
}
use quant_execution.Base.Sort.{All-map, sort_with-All, take-All, drop-All, keep_if-keeps}
use quant_execution.Domain.Records.{Trade}
use quant_execution.Repository.History.{Filter, newest_first, history, list_history, selected}
use quant_execution.Repository.Rows.{DistinctIds, get-has_id}
use quant_execution.Repository.Trades.{Table, get, has_id}

abbrev pub ValidQuery : Params → Type 0
ValidQuery params =
    ModeText (param (codes "mode") params)
    × (StatusText (param (codes "status") params)
        × PageText (param (codes "limit") params) (param (codes "offset") params))

read_query-Decides :
    (lib : Library) (params : Params) → Decides (read_query lib params) (ValidQuery params)
unfolding read_query
read_query-Decides lib params =
    bind-Decides _ _ (check_mode lib params) _ (check_mode-Decides lib params) (λ mode.
      bind-Decides _ _ (check_status lib params) _ (check_status-Decides lib params)
        (λ status. accept-Decides _ (check_pagination params) _ (check_pagination-Decides params)))

status_of :
    (lib : Library) (rows : Table) (c : Checked (Filter × ℕ × ℕ)) (P : Type 0)
    → Decides c P
    → (P × ((response_of (c >>= λ q. accepted (list_response lib rows q))).status ≡ 200))
      ⊎ ((¬ P) × ((response_of (c >>= λ q. accepted (list_response lib rows q))).status ≡ 400))
unfolding list_response
status_of lib rows (accepted q) P p = inl (p, refl)
status_of lib rows (refused r) P p = inr (p.1, p.0)

-- `GET /trades` answers 200 to a query whose mode and status, where they are given, are an execution
-- mode and a trade status, whose limit is a whole number from 1 and whose offset is one from 0; it
-- answers 400 to every other query.
pub list_trades_status :
    (lib : Library) (params : Params) (rows : Table)
    → (ValidQuery params × ((list_trades lib params rows).status ≡ 200))
      ⊎ ((¬ ValidQuery params) × ((list_trades lib params rows).status ≡ 400))
unfolding list_trades
list_trades_status lib params rows =
    status_of lib rows (read_query lib params) (ValidQuery params) (read_query-Decides lib params)

-- The limit of an accepted query.
read_limit :
    (lib : Library) (params : Params) (f : Filter) (limit offset : ℕ)
    → read_query lib params ≡ accepted (f, limit, offset)
    → check_pagination params ≡ accepted (limit, offset)
unfolding read_query
read_limit lib params f limit offset h =
    go (check_mode lib params) (check_status lib params) (check_pagination params) h
  where
    go :
        (mode : Checked (Option Bool)) (status : Checked (Option Text)) (page : Checked (ℕ × ℕ))
        → (mode >>= λ m. status >>= λ s. page >>= λ p. accepted (query_of params m s p))
          ≡ accepted (f, limit, offset)
        → page ≡ accepted (limit, offset)
    go (accepted m) (accepted s) (accepted p) e = cc e
    go (accepted m) (accepted s) (refused r) e = cc e
    go (accepted m) (refused r) page e = cc e
    go (refused r) status page e = cc e

abbrev pub page_answer : Library → Table → Filter → ℕ → ℕ → Response
page_answer lib rows f limit offset =
    let page = list_history lib.rank f limit offset rows in
    answered (Body.listed (length page) limit offset (map (serialize_trade lib) page))

length-map : (lib : Library) (ts : List Trade) → length (map (serialize_trade lib) ts) ≡ length ts
length-map lib [] = refl
length-map lib (t ∷ ts) = omega (arith, length-map lib ts)

page_of :
    (lib : Library) (rows : Table) (c : Checked (Filter × ℕ × ℕ)) (P : Type 0)
    → Decides c P
    → (response_of (c >>= λ q. accepted (list_response lib rows q))).status ≡ 200
    → (f : Filter) × (limit : ℕ) × (offset : ℕ) × (c ≡ accepted (f, limit, offset))
      × (response_of (c >>= λ q. accepted (list_response lib rows q))
          ≡ page_answer lib rows f limit offset)
unfolding list_response
page_of lib rows (accepted (f, l, o)) P p h = (
  f,
  l,
  o,
  refl,
  ap
      (λ n.
        answered (Body.listed n l o (map (serialize_trade lib) (list_history lib.rank f l o rows))))
      (length-map lib (list_history lib.rank f l o rows)),
)
page_of lib rows (refused r) P p h = absurd (ground (arith, p.0))

page_short :
    (lib : Library) (f : Filter) (l o : ℕ) (rows : Table)
    → length (list_history lib.rank f l o rows) ≤ l
unfolding list_history
page_short lib f l o rows = omega (arith, length-take l (drop o (history lib.rank f rows)))

-- What a list request that is answered with 200 gets is one page of the history under the filter
-- that was read from it, counted; the limit of the page is from 1 to 500, whatever limit was asked
-- for, and the page has at most that many trades.
pub list_trades_page :
    (lib : Library) (params : Params) (rows : Table)
    → (list_trades lib params rows).status ≡ 200
    → (f : Filter) × (limit : ℕ) × (offset : ℕ) × (read_query lib params
        ≡ accepted (f, limit, offset))
      × (list_trades lib params rows ≡ page_answer lib rows f limit offset)
      × (1 ≤ limit)
      × (limit ≤ 500)
      × (length (list_history lib.rank f limit offset rows) ≤ limit)
unfolding list_trades
list_trades_page lib params rows h =
    let (f, limit, offset, read, e) =
      page_of lib rows (read_query lib params) (ValidQuery params) (read_query-Decides lib params)
        h in
    let bounds =
      check_pagination-bounds params limit offset (read_limit lib params f limit offset read) in
    (f, limit, offset, read, e, bounds.0, bounds.1, page_short lib f limit offset rows)

still_found :
    (t u : Trade) (ts : Table)
    → has_id t.id ts ≡ false
    → get u.id ts ≡ some u
    → get u.id (t ∷ ts) ≡ some u
unfolding get
still_found t u ts fresh found = elim (Bool-cases (nat_eq t.id u.id)) [
  | inl same ↦
      let again = subst (λ i. has_id i ts ≡ false) ((nat_eq_iff t.id u.id).0 same) fresh in
      absurd (ground (arith, again, get-has_id u.id u ts found))
  | inr other ↦ rw other found
]

found_all : (rows : Table) → DistinctIds rows → All (λ t. get t.id rows ≡ some t) rows
unfolding get
found_all [] h = tt
found_all (t ∷ ts) h =
    (rw (nat_eq_refl t.id) refl, All-map (λ u. still_found t u ts h.0) ts (found_all ts h.1))

-- `GET /trades/<id>` gives, for each trade of any page of the history, by the id that the page
-- shows, the item that the page shows.
pub get_trade-listed :
    (lib : Library) (f : Filter) (limit offset : ℕ) (rows : Table)
    → ((i : ℕ) → lib.read_id (lib.id_text i) ≡ some i)
    → DistinctIds rows
    → All
        (λ t. get_trade lib (lib.id_text t.id) rows ≡ answered (Body.trade (serialize_trade lib t)))
        (list_history lib.rank f limit offset rows)
unfolding list_history history get_trade
get_trade-listed lib f limit offset rows reads distinct =
    let found =
      All-map
        (λ t e.
          ap (parsed_id lib (lib.id_text t.id) rows) (reads t.id)
          ∙ ap (found_trade lib (lib.id_text t.id)) e)
        rows (found_all rows distinct) in
    take-All _ limit _ (
      drop-All _ offset _ (
        sort_with-All _ (newest_first lib.rank) (keep_if (selected f) rows)
          (keep_if-keeps _ (selected f) rows found)))
