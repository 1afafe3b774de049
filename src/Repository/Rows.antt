-- ===== src/Repository/Rows.antt =====
-- What `get` of src/quant_execution/repository/trades_repo.py finds after an insert, an update and a
-- query, in a table whose ids are unique.
pub mod Queries
pub mod Tasks
use quant_execution.Base.{
  ℕ, Text, ◌≡◌, refl, sym, ap, ◌∙◌, subst, Bool, true, false, ◌&&◌, ◌||◌, Option, none, some, List,
  [], ◌∷◌, ◌++◌, arith, inl, inr, if◌then◌else◌, nat_eq, nat_eq_iff, keep_if, Bool-cases,
  Option-cases, take_short, length, ◌≤◌,
}
use mathlib.Core.Option
use quant_execution.Base.Sort.{sort_with, insert_with}
use quant_execution.Domain.Records.{Trade, Change, apply_change, apply_changes}
use quant_execution.Repository.Trades.{
  Table, get, has_id, exists_by_idempotency_key, insert_row, update_rows, apply_update,
}

-- No two rows have one id: the primary key.
abbrev pub DistinctIds : Table → Type 0
DistinctIds [] = Unit
DistinctIds (t ∷ ts) = (has_id t.id ts ≡ false) × DistinctIds ts

pub get-has_id : (i : ℕ) (u : Trade) (ts : Table) → get i ts ≡ some u → has_id i ts ≡ true
unfolding get has_id
get-has_id i u [] h = cc
get-has_id i u (t ∷ ts) h = elim (Bool-cases (nat_eq t.id i)) [
  | inl here ↦ rw here refl
  | inr other ↦ rw other (get-has_id i u ts (rw other at h))
]

pub get-fresh : (i : ℕ) (rows : Table) → has_id i rows ≡ false → get i rows ≡ none
unfolding get has_id
get-fresh i [] h = refl
get-fresh i (t ∷ ts) h = ground (arith, get-fresh i ts)

has_id-append :
    (i : ℕ) (t : Trade) (rows : Table)
    → has_id i (rows ++ t ∷ []) ≡ (has_id i rows || nat_eq t.id i)
unfolding has_id
has_id-append i t [] = ground arith
has_id-append i t (u ∷ rows) = ground (arith, has_id-append i t rows)

append-DistinctIds :
    (t : Trade) (rows : Table)
    → has_id t.id rows ≡ false
    → DistinctIds rows
    → DistinctIds (rows ++ t ∷ [])
unfolding has_id
append-DistinctIds t [] h k = (refl, tt)
append-DistinctIds t (u ∷ rows) h k =
    ground (arith, has_id-append u.id t rows, append-DistinctIds t rows)

get-append :
    (i : ℕ) (t : Trade) (rows : Table)
    → has_id t.id rows ≡ false
    → get i (rows ++ t ∷ []) ≡ (if nat_eq t.id i then some t else get i rows)
unfolding get has_id
get-append i t [] h = refl
get-append i t (u ∷ rows) h = ground (arith, get-append i t rows)

-- An update changes neither the id nor the symbol of a row.
apply_change-same :
    (c : Change) (t : Trade)
    → ((apply_change c t).id ≡ t.id) × ((apply_change c t).symbol ≡ t.symbol)
unfolding apply_change
apply_change-same (Change.status s) t = (refl, refl)
apply_change-same c t = (refl, refl)

pub apply_changes-same :
    (cs : List Change) (t : Trade)
    → ((apply_changes cs t).id ≡ t.id) × ((apply_changes cs t).symbol ≡ t.symbol)
unfolding apply_changes
apply_changes-same [] t = (refl, refl)
apply_changes-same (c ∷ cs) t =
    let first = apply_change-same c t in
    let rest = apply_changes-same cs (apply_change c t) in (rest.0 ∙ first.0, rest.1 ∙ first.1)

get-update_rows :
    (i j : ℕ) (cs : List Change) (rows : Table)
    → get j (update_rows i cs rows)
      ≡ (if nat_eq i j then Option.map (apply_changes cs) (get j rows) else get j rows)
unfolding get update_rows
get-update_rows i j cs [] = ground arith
get-update_rows i j cs (t ∷ ts) =
    ground (arith, get-update_rows i j cs ts, (apply_changes-same cs t).0)

has_id-update_rows :
    (i j : ℕ) (cs : List Change) (rows : Table) → has_id j (update_rows i cs rows) ≡ has_id j rows
unfolding has_id update_rows
has_id-update_rows i j cs [] = refl
has_id-update_rows i j cs (t ∷ ts) =
    ground (arith, has_id-update_rows i j cs ts, (apply_changes-same cs t).0)

update_rows-DistinctIds :
    (i : ℕ) (cs : List Change) (rows : Table)
    → DistinctIds rows
    → DistinctIds (update_rows i cs rows)
unfolding update_rows
update_rows-DistinctIds i cs [] h = tt
update_rows-DistinctIds i cs (t ∷ ts) h = ground (
  arith,
  has_id-update_rows i t.id cs ts,
  (apply_changes-same cs t).0,
  update_rows-DistinctIds i cs ts h.1,
)

-- `insert_row` succeeds only with a new id.
pub insert_row-parts :
    (t : Trade) (rows rows' : Table)
    → insert_row t rows ≡ some rows'
    → (has_id t.id rows ≡ false) × (rows' ≡ rows ++ t ∷ [])
unfolding insert_row
insert_row-parts t rows rows' h = ground arith

pub get-insert_row :
    (i : ℕ) (t : Trade) (rows rows' : Table)
    → insert_row t rows ≡ some rows'
    → get i rows' ≡ (if nat_eq t.id i then some t else get i rows)
get-insert_row i t rows rows' h =
    let parts = insert_row-parts t rows rows' h in rw parts.1 (get-append i t rows parts.0)

pub insert_row-DistinctIds :
    (t : Trade) (rows rows' : Table)
    → insert_row t rows ≡ some rows'
    → DistinctIds rows
    → DistinctIds rows'
insert_row-DistinctIds t rows rows' h k =
    let parts = insert_row-parts t rows rows' h in rw parts.1 (append-DistinctIds t rows parts.0 k)

pub get-apply_update :
    (i j : ℕ) (c : Change) (cs : List Change) (rows : Table)
    → get j (apply_update i (c ∷ cs) rows)
      ≡ (if nat_eq i j then Option.map (apply_changes (c ∷ cs)) (get j rows) else get j rows)
unfolding apply_update
get-apply_update i j c cs rows = get-update_rows i j (c ∷ cs) rows

pub apply_update-DistinctIds :
    (i : ℕ) (cs : List Change) (rows : Table)
    → DistinctIds rows
    → DistinctIds (apply_update i cs rows)
unfolding apply_update
apply_update-DistinctIds i [] rows h = h
apply_update-DistinctIds i (c ∷ cs) rows h = update_rows-DistinctIds i (c ∷ cs) rows h
