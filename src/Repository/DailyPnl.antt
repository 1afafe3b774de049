-- ===== src/Repository/DailyPnl.antt =====
-- src/quant_execution/repository/pnl_repo.py over the rows of one session.
use quant_execution.Base.{
  ℕ, ◌≡◌, refl, Bool, true, false, ◌&&◌, not, Option, none, some, List, [], ◌∷◌, ◌++◌, arith,
  if◌then◌else◌, nat_eq, inl, inr, Bool-cases, Option-cases,
}
use quant_execution.Pnl.{DailyPnlStats}

-- A row holds the figures of a report; its id, currency and stamps are left out.
abbrev pub PnlTable : Type 0
PnlTable = List DailyPnlStats

abbrev pub same_bool : Bool → Bool → Bool
same_bool true b = b
same_bool false b = not b

abbrev pub is_for : ℕ → Bool → DailyPnlStats → Bool
is_for trade_date is_paper row = nat_eq row.trade_date trade_date && same_bool row.is_paper is_paper

-- `get_for_date`
unfoldable pub get_for_date : ℕ → Bool → PnlTable → Option DailyPnlStats
get_for_date d p [] = none
get_for_date d p (row ∷ rows) = if is_for d p row then some row else get_for_date d p rows

unfoldable pub replace_row : DailyPnlStats → PnlTable → PnlTable
replace_row stats [] = []
replace_row stats (row ∷ rows) =
    if is_for stats.trade_date stats.is_paper row
    then stats ∷ rows
    else row ∷ replace_row stats rows

-- `upsert`, by the row that is there.
abbrev pub placed : DailyPnlStats → PnlTable → Option DailyPnlStats → PnlTable
placed stats rows none = rows ++ stats ∷ []
placed stats rows (some existing) = replace_row stats rows

unfoldable pub upsert : DailyPnlStats → PnlTable → PnlTable
upsert stats rows = placed stats rows (get_for_date stats.trade_date stats.is_paper rows)

abbrev pub expected : DailyPnlStats → ℕ → Bool → PnlTable → Option DailyPnlStats
expected stats d p rows = if is_for d p stats then some stats else get_for_date d p rows

-- Of two rows and a query, two that agree with the third agree with each other.
same_key :
    (row stats : DailyPnlStats) (d : ℕ) (p : Bool)
    → is_for stats.trade_date stats.is_paper row ≡ true
    → is_for d p row ≡ is_for d p stats
same_key row stats d p same = ground arith

other_key :
    (row stats : DailyPnlStats) (d : ℕ) (p : Bool)
    → is_for stats.trade_date stats.is_paper row ≡ false
    → is_for d p stats ≡ true
    → is_for d p row ≡ false
other_key row stats d p different asked = ground arith

pub skipped :
    (mine : Bool) (row : DailyPnlStats) (rest : Option DailyPnlStats) {found : Option DailyPnlStats}
    → mine ≡ false
    → (if mine then some row else rest) ≡ found
    → rest ≡ found
skipped true row rest apart h = absurd (ground arith)
skipped false row rest apart h = h

kept_step :
    (here asked : Bool) (row stats : DailyPnlStats) (now rest : Option DailyPnlStats)
    → (asked ≡ true → here ≡ false)
    → now ≡ (if asked then some stats else rest)
    → (if here then some row else now)
      ≡ (if asked then some stats else if here then some row else rest)
kept_step true true row stats now rest apart ih = absurd (ground (arith, apart refl))
kept_step true false row stats now rest apart ih = refl
kept_step false asked row stats now rest apart ih = ih

replaced_step :
    (here asked : Bool) (row stats : DailyPnlStats) (rest : Option DailyPnlStats)
    → here ≡ asked
    → (if asked then some stats else rest)
      ≡ (if asked then some stats else if here then some row else rest)
replaced_step here true row stats rest same = refl
replaced_step here false row stats rest same = rw same refl

pub get-append :
    (stats : DailyPnlStats) (rows : PnlTable) (d : ℕ) (p : Bool)
    → get_for_date stats.trade_date stats.is_paper rows ≡ none
    → get_for_date d p (rows ++ stats ∷ []) ≡ expected stats d p rows
unfolding get_for_date
get-append stats [] d p gone = refl
get-append stats (row ∷ rows) d p gone =
    elim (Bool-cases (is_for stats.trade_date stats.is_paper row)) [
      | inl mine ↦ absurd (ground (arith, gone, mine))
      | inr apart ↦
          kept_step (is_for d p row) (is_for d p stats) row stats _ _
            (other_key row stats d p apart) (get-append stats rows d p (skipped _ row _ apart gone))
    ]

pub get-replace :
    (stats : DailyPnlStats) (rows : PnlTable) (d : ℕ) (p : Bool) (old : DailyPnlStats)
    → get_for_date stats.trade_date stats.is_paper rows ≡ some old
    → get_for_date d p (replace_row stats rows) ≡ expected stats d p rows
unfolding get_for_date replace_row
get-replace stats [] d p old found = ground arith
get-replace stats (row ∷ rows) d p old found =
    elim (Bool-cases (is_for stats.trade_date stats.is_paper row)) [
      | inl mine ↦ rw mine (
          replaced_step (is_for d p row) (is_for d p stats) row stats (get_for_date d p rows)
            (same_key row stats d p mine))
      | inr apart ↦ rw apart (
          kept_step (is_for d p row) (is_for d p stats) row stats _ _
            (other_key row stats d p apart)
            (get-replace stats rows d p old (skipped _ row _ apart found)))
    ]

-- After `upsert` the row of that date and mode holds the new figures, and every other date and mode
-- has the row that it had.
pub get-upsert :
    (stats : DailyPnlStats) (rows : PnlTable) (d : ℕ) (p : Bool)
    → get_for_date d p (upsert stats rows)
      ≡ (if is_for d p stats then some stats else get_for_date d p rows)
unfolding upsert
get-upsert stats rows d p =
    elim (Option-cases (get_for_date stats.trade_date stats.is_paper rows)) [
      | inl gone ↦ rw gone (get-append stats rows d p gone)
      | inr (old, found) ↦ rw found (get-replace stats rows d p old found)
    ]
