-- ===== src/Workers/Process/Restart.antt =====
-- A process from its start on: the book that `rehydrate_positions` of
-- src/quant_execution/workers/executor.py rebuilds from the trades of the mode, and then the turns
-- of the threads.
use quant_execution.Base.{
  ℕ, Text, ◌≡◌, refl, ◌∙◌, Bool, true, false, ◌&&◌, Option, none, some, List, [], ◌∷◌, All,
  text_keys,
}
use quant_execution.Base.Sort.{sort_with-All, take-All, All-map, keep_if-All}
use quant_execution.Domain.Enums.{TradeStatus, is_paper_mode}
use quant_execution.Domain.Records.{Tick, Trade}
use quant_execution.Matching.Refresher.{Refresher}
use quant_execution.Positions.{open_position}
use quant_execution.Positions.Invariant.{IsWellFormed}
use quant_execution.Repository.Trades.{Table, same_bool, list_by_statuses}
use quant_execution.Services.Execution.Paper.{PaperBook, IsQuiet-open}
use quant_execution.Services.Liquidator.{Liquidator}
use quant_execution.Services.Rehydrate.{is_rehydrated, position_from_trade}
use quant_execution.Services.World.{World, Service}
use quant_execution.Workers.Process.{Process, Runs}
use quant_execution.Workers.Process.Safety.{threads-IsWellFormed, paper_threads_keep_quiet}
use quant_execution.Workers.Rehydration.{
  row_limit, open_all, rebuild, rehydrate_positions, rehydrate_positions-IsWellFormed,
}

-- A process whose book is rebuilt from `rows` before its threads start.
abbrev pub restarted : Service → Option Table → Refresher → Liquidator → World → Process
restarted sv rows refresher liquidator w = record {
  world = rehydrate_positions rows sv.mode w;
  refresher = refresher;
  liquidator = liquidator;
}

selected : (a b : Bool) → a && same_bool b true ≡ true → b ≡ true
selected true true h = refl
selected true false h = h
selected false b h = cc h

-- A query for paper trades gives paper trades only.
list_by_statuses-paper :
    (wanted : TradeStatus → Bool) (limit : ℕ) (rows : Table)
    → All (λ t. t.is_paper ≡ true) (list_by_statuses wanted true limit rows)
unfolding list_by_statuses
list_by_statuses-paper wanted limit rows = take-All _ limit _ (
    sort_with-All _ _ _
      (All-map (λ t. selected (wanted t.status) t.is_paper) _ (keep_if-All _ rows)))

open_all-paper :
    (trades : List Trade) (w : World)
    → All (λ t. t.is_paper ≡ true) trades
    → PaperBook w.book
    → PaperBook (open_all trades w.book)
unfolding open_all position_from_trade
open_all-paper [] w paper h = h
open_all-paper (t ∷ ts) w paper h =
    let p = position_from_trade t in
    open_all-paper ts (record w { book = open_position p w.book }) paper.1
      ((IsQuiet-open p paper.0).at w h).0

module _ (parse : Text → Option Tick) (sv : Service) (rows : Option Table) (refresher : Refresher)
    (liquidator : Liquidator) (w : World) where
  rehydrated-paper :
      (rs : Option Table)
      → is_paper_mode sv.mode ≡ true
      → PaperBook w.book
      → PaperBook (rehydrate_positions rs sv.mode w).book
        × ((rehydrate_positions rs sv.mode w).calls ≡ w.calls)
  unfolding rehydrate_positions rebuild
  rehydrated-paper none paper h = (h, refl)
  rehydrated-paper (some table) paper h =
      rw paper (open_all-paper _ w (list_by_statuses-paper is_rehydrated row_limit table) h, refl)

  -- A process that rebuilds its book from whatever trades the query gives, and whose threads then
  -- take turns in any order, has a well-formed book at every moment, if it had one to begin with.
  pub restarted-IsWellFormed :
      {q : Process}
      → IsWellFormed w.book
      → Runs parse sv (restarted sv rows refresher liquidator w) q
      → IsWellFormed q.world.book
  restarted-IsWellFormed h run =
      threads-IsWellFormed parse sv run (rehydrate_positions-IsWellFormed rows sv.mode w h)

  pub restarted_paper_keeps_quiet :
      {q : Process}
      → is_paper_mode sv.mode ≡ true
      → PaperBook w.book
      → Runs parse sv (restarted sv rows refresher liquidator w) q
      → PaperBook q.world.book × (q.world.calls ≡ w.calls)
  restarted_paper_keeps_quiet paper h run =
      let first = rehydrated-paper rows paper h in
      let next = paper_threads_keep_quiet parse sv paper run first.0 in (next.0, next.1 ∙ first.1)
