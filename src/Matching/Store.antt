-- ===== src/Matching/Store.antt =====
-- `entry_matches` and `class WatchlistStore`. A snapshot is swapped whole.
use quant_execution.Base.{
  ℕ, Text, Bool, none, some, List, [], ◌∷◌, ◌++◌, length, sum_map, keep_if, text_keys,
}
use quant_execution.Base.Int.{◌+ℤ◌, ◌-ℤ◌}
use quant_execution.Base.Dict.{Dict, lookup, insert}
use quant_execution.Domain.Enums.{PositionType, long, short}
use quant_execution.Domain.Decimal.{Decimal, at_most}
use quant_execution.Domain.Records.{WatchlistEntry}

abbrev armed : PositionType → Decimal → Decimal → Decimal → Bool
armed long buy price tolerance = at_most price (buy +ℤ tolerance)
armed short buy price tolerance = at_most (buy -ℤ tolerance) price

unfoldable pub entry_matches : WatchlistEntry → Decimal → Decimal → Bool
entry_matches e price tolerance = armed e.position_type e.buy_price price tolerance

abbrev pub Snapshot : Type 0
Snapshot = Dict Text (List WatchlistEntry)

pub record WatchlistStore : Type 0 where
  pub tolerance : Decimal
  pub by_symbol : Snapshot

unfoldable pub entries_of : Text → Snapshot → List WatchlistEntry
entries_of s d = elim (lookup s d) [ none ↦ [] | some es ↦ es ]

-- `snapshot[entry.symbol].append(entry)` on a `defaultdict(list)`.
unfoldable pub file_entry : WatchlistEntry → Snapshot → Snapshot
unfolding entries_of
file_entry e d = insert e.symbol (entries_of e.symbol d ++ e ∷ []) d

unfoldable pub file_all : List WatchlistEntry → Snapshot → Snapshot
unfolding file_entry
file_all [] d = d
file_all (e ∷ es) d = file_all es (file_entry e d)

-- `WatchlistStore.replace`
unfoldable pub replace : List WatchlistEntry → WatchlistStore → WatchlistStore
unfolding file_all
replace entries store = record store { by_symbol = file_all entries [] }

-- `WatchlistStore.__len__`
unfoldable pub store_len : WatchlistStore → ℕ
store_len store = sum_map (λ e. length e.1) store.by_symbol

unfoldable pub keys_of : Snapshot → List Text
keys_of [] = []
keys_of ((s, es) ∷ d) = s ∷ keys_of d

-- `WatchlistStore.symbols`
unfoldable pub store_symbols : WatchlistStore → List Text
unfolding keys_of
store_symbols store = keys_of store.by_symbol

-- `WatchlistStore.match`. An empty bucket gives the empty list in the source too.
unfoldable pub match_entries : Text → Decimal → WatchlistStore → List WatchlistEntry
unfolding entry_matches
match_entries s price store = elim (lookup s store.by_symbol) [
  | none ↦ []
  | some candidates ↦ keep_if (λ e. entry_matches e price store.tolerance) candidates
]
