-- ===== src/Workers/Recovery.antt =====
-- The book of a paper executor beside the trades table, by src/quant_execution/domain/positions.py,
-- the handlers of domain/services.py and `rehydrate_positions` of workers/executor.py: what the rows
-- tell of a position, and how the operations of the book follow the writes to the table.
pub mod Claims
pub mod Entries
pub mod Exits
pub mod Rebuilt
pub mod Restarts
pub mod Shutdown
pub mod Close
use quant_execution.Base.{
  ℕ, Text, ◌≡◌, refl, sym, ap, ◌∙◌, Bool, true, false, ◌&&◌, Option, none, some, List, [], ◌∷◌,
  ◌++◌, arith, inl, inr, if◌then◌else◌, text_eq, text_eq_iff, nat_eq, nat_eq_iff, Bool-cases,
  Option-cases, text_keys, nat_keys,
}
use mathlib.Core.Option
use quant_execution.Base.Dict.{Distinct, lookup}
use quant_execution.Domain.Enums.{PositionState, opened, is_opened}
use quant_execution.Domain.Records.{Trade, Position, Change, apply_change, apply_changes}
use quant_execution.Positions.{Book, bucket_of, open_position, remove, find, set_state}
use quant_execution.Positions.Entries.{find-open_position, find-remove}
use quant_execution.Positions.Open.{OpenBut, is_among}
use quant_execution.Positions.Invariant.{IsWellFormed, bucket_of-Ok}
use quant_execution.Repository.Rows.{
  DistinctIds, get-fresh, insert_row-parts, get-insert_row, get-apply_update, apply_changes-same,
}
use quant_execution.Repository.Rows.Queries.{kept_row, asked_for}
use quant_execution.Repository.Trades.{Table, get, insert_row, apply_update, same_bool}
use quant_execution.Services.Rehydrate.{is_rehydrated, position_from_trade}
use quant_execution.Workers.Rehydration.{open_all}

-- A position as it is while it is open.
abbrev pub settled : Position → Position
settled p = set_state opened p

opened_state : (st : PositionState) → is_opened st ≡ true → st ≡ opened
unfolding is_opened
opened_state st h = ground arith

settled_same : (p : Position) → is_opened p.state ≡ true → settled p ≡ p
settled_same p live = ap (λ st. set_state st p) (sym (opened_state p.state live))

-- A book whose positions are all open is the same once its positions are open.
pub settled_open :
    (s : Text) (i : ℕ) (book : Book)
    → OpenBut [] book
    → Option.map settled (find s i book) ≡ find s i book
unfolding is_among
settled_open s i book h = elim (Option-cases (find s i book)) [
  | inl gone ↦ rw gone refl
  | inr (p, there) ↦ rw there (ap some (settled_same p (h.at s i p there refl)))
]

-- The position that a row tells of, at a symbol, if it is one that a paper process rebuilds.
abbrev pub told : Text → Option Trade → Option Position
told s none = none
told s (some t) = if text_eq t.symbol s then some (position_from_trade t) else none

-- What the rows tell of a symbol and an id.
unfoldable pub held : Text → ℕ → Table → Option Position
held s i rows = told s (kept_row (asked_for is_rehydrated true) (get i rows))

-- Under each symbol and id the book holds what the rows tell, once its positions are open.
pub record Mirrors (book : Book) (rows : Table) : Type 0 where
  pub at : (s : Text) (i : ℕ) → Option.map settled (find s i book) ≡ held s i rows

-- The rows that `p`'s id leads to name its symbol.
abbrev pub Names : Position → Table → Type 0
Names p rows = (t : Trade) → get p.trade_id rows ≡ some t → t.symbol ≡ p.symbol

pub found-Names :
    (p q : Position) (book : Book) (rows : Table)
    → Mirrors book rows
    → find p.symbol p.trade_id book ≡ some q
    → Names p rows
unfolding held
found-Names p q book rows mirror found t row =
    ground (arith, mirror.at p.symbol p.trade_id, text_eq_iff t.symbol p.symbol)

-- An insert of a row that is not rebuilt, an update of it to one that is, and the opening of its
-- position.
pub entry-Mirrors :
    (t : Trade) (c : Change) (cs : List Change) (p : Position) (book : Book) (rows rows' : Table)
    → Mirrors book rows
    → insert_row t rows ≡ some rows'
    → let t' = apply_changes (c ∷ cs) t in
      asked_for is_rehydrated true t' ≡ true
      → position_from_trade t' ≡ settled p
      → p.trade_id ≡ t.id
      → p.symbol ≡ t'.symbol
      → Mirrors (open_position p book) (apply_update t.id (c ∷ cs) rows')
unfolding held
entry-Mirrors t c cs p book rows rows' mirror new rebuilt same id symbol = record {
  at = λ s i.
      let fresh : get t.id rows ≡ none =
        get-fresh t.id rows (insert_row-parts t rows rows' new).0 in
      ground (
        arith,
        fresh,
        find-open_position p book s i,
        get-apply_update t.id i c cs rows',
        get-insert_row i t rows rows' new,
        mirror.at s i,
        text_eq_iff p.symbol s,
      );
}

-- The closing of a row, and the removal of its position.
pub exit-Mirrors :
    (c : Change) (cs : List Change) (p : Position) (book : Book) (rows : Table)
    → IsWellFormed book
    → Mirrors book rows
    → Names p rows
    → ((t : Trade) → asked_for is_rehydrated true (apply_changes (c ∷ cs) t) ≡ false)
    → Mirrors (remove p book) (apply_update p.trade_id (c ∷ cs) rows)
unfolding held
exit-Mirrors c cs p book rows shape mirror names over = record {
  at = λ s i. elim (Option-cases (get i rows)) [
    | inl gone ↦ ground (
      arith,
      find-remove p book s i shape.keys (bucket_of-Ok p.symbol book shape).0,
      get-apply_update p.trade_id i c cs rows,
      mirror.at s i,
      text_eq_iff p.symbol s,
    )
    | inr (t, row) ↦ elim (Bool-cases (nat_eq p.trade_id i)) [
      | inl same ↦
          let here : p.trade_id ≡ i = (nat_eq_iff p.trade_id i).0 same in
          let symbol : t.symbol ≡ p.symbol = names t (ap (λ j. get j rows) here ∙ row) in
          ground (
            arith,
            over t,
            find-remove p book s i shape.keys (bucket_of-Ok p.symbol book shape).0,
            get-apply_update p.trade_id i c cs rows,
            mirror.at s i,
            text_eq_iff p.symbol s,
          )
      | inr other ↦ ground (
        arith,
        find-remove p book s i shape.keys (bucket_of-Ok p.symbol book shape).0,
        get-apply_update p.trade_id i c cs rows,
        mirror.at s i,
      )
    ]
  ];
}
