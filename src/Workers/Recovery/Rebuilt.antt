-- ===== src/Workers/Recovery/Rebuilt.antt =====
-- The book that `rehydrate_positions` of src/quant_execution/workers/executor.py rebuilds holds what
-- the rows tell.
use quant_execution.Base.{
  ℕ, Text, ◌≡◌, sym, Option-cases, inl, inr, text_eq_refl, refl, ap, ◌∙◌, true, Option, none, some,
  List, [], ◌∷◌, arith, if◌then◌else◌, text_eq, text_keys, nat_keys, length, keep_if, ◌≤◌,
}
use mathlib.Core.Option
use quant_execution.Base.Dict.{lookup}
use quant_execution.Domain.Enums.{is_paper_mode}
use quant_execution.Domain.Records.{Position, Trade}
use quant_execution.Matching.Refresher.{Refresher}
use quant_execution.Positions.{Book, open_position, find}
use quant_execution.Positions.Entries.{find-open_position}
use quant_execution.Repository.Rows.{DistinctIds, get-fresh}
use quant_execution.Repository.Rows.Queries.{kept_row, asked_for, list_by_statuses-get}
use quant_execution.Repository.Trades.{Table, get, list_by_statuses}
use quant_execution.Services.Liquidator.{Liquidator}
use quant_execution.Services.Rehydrate.{is_rehydrated, position_from_trade}
use quant_execution.Services.World.{World, Service}
use quant_execution.Workers.Process.Restart.{restarted}
use quant_execution.Domain.Enums.{TradeStatus, filled, opened, is_opened}
use quant_execution.Services.Rehydrate.{rehydrated_state}
use quant_execution.Workers.Recovery.{settled_open}
use quant_execution.Positions.Open.{OpenBut}
use quant_execution.Workers.Recovery.{Mirrors, held, told, settled}
use quant_execution.Workers.Rehydration.{row_limit, open_all, rebuild, rehydrate_positions}

-- The query of `rehydrate_positions` for paper trades is not cut by its limit.
abbrev pub FitsQuery : Table → Type 0
FitsQuery rows = length (keep_if (asked_for is_rehydrated true) rows) ≤ row_limit

abbrev rebuilt_at : Text → Option Trade → Option Position → Option Position
rebuilt_at s none o = o
rebuilt_at s (some t) o = if text_eq t.symbol s then some (position_from_trade t) else o

find-open_all :
    (s : Text) (i : ℕ) (ts : List Trade) (book : Book)
    → DistinctIds ts
    → find s i (open_all ts book) ≡ rebuilt_at s (get i ts) (find s i book)
unfolding open_all get position_from_trade
find-open_all s i [] book h = refl
find-open_all s i (t ∷ ts) book h = ground (
  arith,
  find-open_all s i ts (open_position (position_from_trade t) book) h.1,
  find-open_position (position_from_trade t) book s i,
  get-fresh t.id ts h.0,
)

told_by : (s : Text) (o : Option Trade) → rebuilt_at s o none ≡ told s o
told_by s none = refl
told_by s (some t) = refl

-- The trades of the table that a paper process rebuilds are FILLED.
abbrev pub OnlyFilled : Table → Type 0
OnlyFilled rows =
    (i : ℕ) (t : Trade)
    → get i rows ≡ some t
    → asked_for is_rehydrated true t ≡ true
    → t.status ≡ filled

-- What a paper process asks of the table at its start: unique ids, a query that is not cut, and
-- open paper trades that are FILLED.
pub record IsRestorable (rows : Table) : Type 0 where
  pub ids : DistinctIds rows
  pub fits : FitsQuery rows
  pub only : OnlyFilled rows

held-is_opened :
    (s : Text) (i : ℕ) (p : Position) (rows : Table)
    → OnlyFilled rows
    → held s i rows ≡ some p
    → is_opened p.state ≡ true
unfolding held is_opened position_from_trade rehydrated_state
held-is_opened s i p rows only there = elim (Option-cases (get i rows)) [
  | inl gone ↦ ground arith
  | inr (t, row) ↦ ground (arith, only i t row)
]

filled_status : (st : TradeStatus) → rehydrated_state st ≡ opened → st ≡ filled
unfolding rehydrated_state
filled_status st h = ground arith

told_kept :
    (t : Trade)
    → asked_for is_rehydrated true t ≡ true
    → told t.symbol (kept_row (asked_for is_rehydrated true) (some t))
      ≡ some (position_from_trade t)
told_kept t asked = ground (arith, text_eq_refl t.symbol)

told_state : (o : Option Position) (p : Position) → Option.map settled o ≡ some p → p.state ≡ opened
told_state none p h = cc
told_state (some q) p h = ground arith

-- If the rows tell open positions only, those that are to be rebuilt are FILLED.
pub held-OnlyFilled : (book : Book) (rows : Table) → Mirrors book rows → OnlyFilled rows
unfolding held position_from_trade
held-OnlyFilled book rows mirror i t row asked = filled_status t.status (
    told_state (find t.symbol i book) (position_from_trade t)
      (mirror.at t.symbol i ∙ rw row (told_kept t asked)))

module _ (sv : Service) (paper : is_paper_mode sv.mode ≡ true) (refresher : Refresher)
    (liquidator : Liquidator) (w : World) (fresh : w.book ≡ []) where
  -- What is rebuilt is what the rows tell.
  pub rebuilt-held :
      (rows : Table) (s : Text) (i : ℕ)
      → DistinctIds rows
      → FitsQuery rows
      → find s i (restarted sv (some rows) refresher liquidator w).world.book ≡ held s i rows
  unfolding rehydrate_positions rebuild held find lookup
  rebuilt-held rows s i distinct fits =
      let query = list_by_statuses-get is_rehydrated true row_limit rows distinct fits in
      rw (paper, fresh)
        (find-open_all s i (list_by_statuses is_rehydrated true row_limit rows) [] query.0
          ∙ told_by s (get i (list_by_statuses is_rehydrated true row_limit rows))
          ∙ ap (told s) (query.1 i))

  module _ (rows : Table) (ok : IsRestorable rows) where
    pub rebuilt-OpenBut : OpenBut [] (restarted sv (some rows) refresher liquidator w).world.book
    rebuilt-OpenBut = record {
      at = λ s i p found none_left.
          held-is_opened s i p rows ok.only (sym (rebuilt-held rows s i ok.ids ok.fits) ∙ found);
    }

    pub rebuilt-Mirrors : Mirrors (restarted sv (some rows) refresher liquidator w).world.book rows
    rebuilt-Mirrors = record {
      at = λ s i. settled_open s i _ rebuilt-OpenBut ∙ rebuilt-held rows s i ok.ids ok.fits;
    }
