-- ===== src/Matching/Snapshot.antt =====
-- Lemmas about `match` and `__len__` of `WatchlistStore` after `replace`.
use mathlib.Core.List.{append_assoc, append-nil}
use quant_execution.Base.{
  ℕ, ◌+◌, Text, ◌≡◌, ◌↔◌, refl, sym, ap, ◌∙◌, Bool, true, ◌&&◌, List, [], ◌∷◌, ◌++◌, arith, inl,
  inr, if◌then◌else◌, length, length-append, sum_map, keep_if, Bool-cases, text_keys, text_eq,
  text_eq_iff,
}
use quant_execution.Base.Int.{◌+ℤ◌, ◌-ℤ◌, ◌≤ℤ◌}
use quant_execution.Base.Dict.{lookup, insert, lookup-insert}
use quant_execution.Domain.Enums.{long, short}
use quant_execution.Domain.Decimal.{Decimal}
use quant_execution.Domain.Records.{WatchlistEntry}
use quant_execution.Matching.Store.{
  Snapshot, WatchlistStore, entries_of, file_entry, file_all, replace, store_len, match_entries,
  entry_matches,
}

abbrev with_symbol : Text → List WatchlistEntry → List WatchlistEntry
with_symbol s = keep_if (λ e. text_eq e.symbol s)

entries_of-file_entry :
    (s : Text) (e : WatchlistEntry) (d : Snapshot)
    → entries_of s (file_entry e d)
      ≡ (if text_eq e.symbol s then entries_of s d ++ e ∷ [] else entries_of s d)
unfolding file_entry
entries_of-file_entry s e d =
    ground
      (arith, text_eq_iff e.symbol s, lookup-insert e.symbol s (entries_of e.symbol d ++ e ∷ []) d)

entries_of-file_all :
    (s : Text) (es : List WatchlistEntry) (d : Snapshot)
    → entries_of s (file_all es d) ≡ entries_of s d ++ with_symbol s es
unfolding file_all
entries_of-file_all s [] d = sym (append-nil (entries_of s d))
entries_of-file_all s (e ∷ es) d = elim (Bool-cases (text_eq e.symbol s)) [
  | inl same ↦
      entries_of-file_all s es (file_entry e d)
      ∙ rw (entries_of-file_entry s e d, same)
          (append_assoc (entries_of s d) (e ∷ []) (with_symbol s es))
  | inr other ↦ entries_of-file_all s es (file_entry e d) ∙ rw (entries_of-file_entry s e d, other)
]

match-filter :
    (s : Text) (price : Decimal) (store : WatchlistStore)
    → match_entries s price store
      ≡ keep_if (λ e. entry_matches e price store.tolerance) (entries_of s store.by_symbol)
unfolding match_entries entries_of
match-filter s price store = ground arith

keep_if-keep_if :
    (p q : WatchlistEntry → Bool) (es : List WatchlistEntry)
    → keep_if p (keep_if q es) ≡ keep_if (λ e. q e && p e) es
keep_if-keep_if p q [] = refl
keep_if-keep_if p q (e ∷ es) = ground (arith, keep_if-keep_if p q es)

entries_of-nil : (s : Text) → entries_of s [] ≡ []
unfolding entries_of lookup
entries_of-nil s = refl

-- After `replace`, a match returns the loaded entries of the symbol that the price triggers, in
-- the order in which they were loaded, and nothing of an earlier snapshot.
pub match-replace :
    (s : Text) (price : Decimal) (es : List WatchlistEntry) (store : WatchlistStore)
    → match_entries s price (replace es store)
      ≡ keep_if (λ e. text_eq e.symbol s && entry_matches e price store.tolerance) es
unfolding replace
match-replace s price es store =
    match-filter s price (replace es store)
    ∙ ap (keep_if (λ e. entry_matches e price store.tolerance))
        (entries_of-file_all s es [] ∙ ap (λ d. d ++ with_symbol s es) (entries_of-nil s))
    ∙ keep_if-keep_if _ _ es

-- A LONG entry triggers exactly at prices up to `buy_price + tolerance`, a SHORT one exactly at
-- prices from `buy_price - tolerance`.
pub entry_matches_iff :
    (e : WatchlistEntry) (price tolerance : Decimal)
    → (e.position_type ≡ long
        → (entry_matches e price tolerance ≡ true) ↔ (price ≤ℤ e.buy_price +ℤ tolerance))
      × (e.position_type ≡ short
          → (entry_matches e price tolerance ≡ true) ↔ (e.buy_price -ℤ tolerance ≤ℤ price))
unfolding entry_matches
entry_matches_iff e price tolerance = (λ kind. ground arith, λ kind. ground arith)

len_of : Snapshot → ℕ
len_of d = sum_map (λ x. length x.1) d

len-insert :
    (s : Text) (es : List WatchlistEntry) (d : Snapshot)
    → len_of (insert s es d) + length (entries_of s d) ≡ len_of d + length es
unfolding insert entries_of lookup len_of
len-insert s es [] = omega arith
len-insert s es ((t, fs) ∷ d) = ground (arith, len-insert s es d)

len-file_all :
    (es : List WatchlistEntry) (d : Snapshot) → len_of (file_all es d) ≡ len_of d + length es
unfolding file_all
len-file_all [] d = omega arith
len-file_all (e ∷ es) d =
    unfold file_entry in
    omega (
      arith,
      len-file_all es (file_entry e d),
      len-insert e.symbol (entries_of e.symbol d ++ e ∷ []) d,
      length-append (entries_of e.symbol d) (e ∷ []),
    )

-- The store counts every entry that was loaded, also where two are equal.
pub store_len-replace :
    (es : List WatchlistEntry) (store : WatchlistStore) → store_len (replace es store) ≡ length es
unfolding store_len replace len_of
store_len-replace es store = len-file_all es [] ∙ omega arith
