-- ===== src/Tests/Positions.antt =====
-- The position book and the watchlist at concrete inputs.
use mathlib.Core.List.{Perm}
use quant_execution.Base.{◌≡◌, true, ◌&&◌, none, some, [], ◌∷◌, ◌++◌, text_eq, keep_if}
use quant_execution.Base.Int.{pos}
use quant_execution.Domain.Enums.{opened}
use quant_execution.Positions.{claim_exits, claim_all_open}
use quant_execution.Positions.Claims.{open_exits, claims_once}
use quant_execution.Matching.Store.{WatchlistStore, entry_matches, replace, match_entries}
use quant_execution.Matching.Snapshot.{match-replace}
use quant_execution.Matching.Refresher.{Refresher}
use quant_execution.Tests.Data.{apple, signal, position, book_of, at_sixteen}

claims_once_example :
    let (book', by_tick) = claim_exits apple (pos 11000000000) (book_of (position true opened)) in
    let (book'', by_close) = claim_all_open book' in
    Perm (by_tick ++ by_close) (open_exits (book_of (position true opened)))
    × (open_exits book'' ≡ [])
claims_once_example = claims_once apple (pos 11000000000) (book_of (position true opened))

abbrev store : WatchlistStore
store = record { tolerance = pos 0; by_symbol = [] }

match-replace_example :
    match_entries apple (pos 9900000000) (replace (signal ∷ []) store)
    ≡ keep_if
        (λ e. text_eq e.symbol apple && entry_matches e (pos 9900000000) (pos 0))
        (signal ∷ [])
match-replace_example = match-replace apple (pos 9900000000) (signal ∷ []) store

abbrev refresher : Refresher
refresher = record { store = store; open_time = some at_sixteen; last_run = none }
