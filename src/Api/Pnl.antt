-- ===== src/Api/Pnl.antt =====
-- src/quant_execution/api/routes/pnl.py.
-- A row of the table is its figures; what the database fills in is looked up by date and mode.
pub mod Laws
use quant_execution.Api.{Library, Value, Item, Body, Response, answered, error_response, serialized}
use quant_execution.Api.Query.{
  Params, Checked, ◌>>=◌, refused, accepted, check_mode, check_pagination,
}
use quant_execution.Api.Trades.{response_of}
use quant_execution.Base.{
  ℕ, Text, Bool, Option, none, some, List, [], ◌∷◌, ◌++◌, codes, length, map,
}
use quant_execution.Base.Int.{pos}
use quant_execution.Domain.Enums.{mode_value}
use quant_execution.Pnl.{DailyPnlStats}
use quant_execution.Repository.DailyPnl.{PnlTable}
use quant_execution.Repository.PnlHistory.{list_for_date, list_pnl_history}

-- The columns of `daily_pnl` that are no figures.
pub record Stored : Type 0 where
  pub id : ℕ
  pub currency : Text
  pub created_at : ℕ
  pub updated_at : ℕ

module _ (lib : Library) (stored : ℕ → Bool → Stored) where
  -- `DailyPnl.__table__.columns`
  unfoldable pub pnl_columns : DailyPnlStats → List (Text × Value)
  pnl_columns r =
      let extra = stored r.trade_date r.is_paper in
      (codes "id", Value.id extra.id)
      ∷ (codes "trade_date", Value.date r.trade_date)
      ∷ (codes "execution_mode", Value.string (mode_value r.execution_mode))
      ∷ (codes "is_paper", Value.boolean r.is_paper)
      ∷ (codes "total_trades", Value.number (pos r.total_trades))
      ∷ (codes "winning_trades", Value.number (pos r.winning_trades))
      ∷ (codes "losing_trades", Value.number (pos r.losing_trades))
      ∷ (codes "breakeven_trades", Value.number (pos r.breakeven_trades))
      ∷ (codes "symbols_traded", Value.number (pos r.symbols_traded))
      ∷ (codes "realized_pnl", Value.decimal r.realized_pnl)
      ∷ (codes "amount_invested", Value.decimal r.amount_invested)
      ∷ (codes "gross_proceeds", Value.decimal r.gross_proceeds)
      ∷ (codes "win_rate", Value.decimal r.win_rate)
      ∷ (codes "return_pct", Value.decimal r.return_pct)
      ∷ (codes "average_win", Value.decimal r.average_win)
      ∷ (codes "average_loss", Value.decimal r.average_loss)
      ∷ (codes "largest_win", Value.decimal r.largest_win)
      ∷ (codes "largest_loss", Value.decimal r.largest_loss)
      ∷ (codes "currency", Value.string extra.currency)
      ∷ (codes "created_at", Value.instant extra.created_at)
      ∷ (codes "updated_at", Value.instant extra.updated_at)
      ∷ []

  -- `_serialize`
  unfoldable pub serialize : DailyPnlStats → Item
  serialize r = serialized lib (pnl_columns r)

  unfoldable pub read_pnl_query : Params → Checked (Option Bool × ℕ × ℕ)
  read_pnl_query params = do
    mode ← check_mode lib params
    page ← check_pagination params
    accepted (mode, page.0, page.1)

  unfoldable pub list_pnl_response : PnlTable → Option Bool × ℕ × ℕ → Response
  list_pnl_response rows (mode, limit, offset) =
      let items = map serialize (list_pnl_history mode limit offset rows) in
      answered (Body.listed (length items) limit offset items)

  -- `list_pnl`
  unfoldable pub list_pnl : Params → PnlTable → Response
  list_pnl params rows =
      response_of (do query ← read_pnl_query params; accepted (list_pnl_response rows query))

  abbrev pub day_response : Text → PnlTable → Response
  day_response trade_date [] =
      error_response 404 (codes "not_found") (codes "no daily pnl for " ++ trade_date)
  day_response trade_date (row ∷ rows) =
      let items = map serialize (row ∷ rows) in answered (Body.day trade_date (length items) items)

  abbrev pub parsed_date : Text → PnlTable → Option ℕ → Response
  parsed_date trade_date rows none =
      error_response 400 (codes "invalid_date")
        (codes "not a valid date: " ++ (lib.quoted trade_date ++ codes " (use YYYY-MM-DD)"))
  parsed_date trade_date rows (some d) = day_response trade_date (list_for_date d rows)

  -- `get_pnl`
  unfoldable pub get_pnl : Text → PnlTable → Response
  get_pnl trade_date rows = parsed_date trade_date rows (lib.read_date trade_date)
