-- ===== src/Migrations/Versions/Restore.antt =====
-- The downgrades of alembic/versions over a database whose operations are parameters.
use quant_execution.Base.{
  ◌≡◌, refl, sym, ap, ◌∙◌, Option, none, some, List, [], ◌∷◌, ◌++◌, inl, inr, Option-cases,
}
use mathlib.Core.Path.{fun_ext}
use quant_execution.Migrations.Versions.{
  Upgrade, create_table, create_index, add_column, Downgrade, drop_table, drop_index, drop_column,
  Version, create_trades, add_exit_columns, create_daily_pnl, upgrade, downgrade,
}

-- The operation that takes back another.
unfoldable pub undo : Upgrade → Downgrade
undo (create_table name columns key uniques) = drop_table name
undo (create_index name table columns unique) = drop_index name table
undo (add_column table column) = drop_column table column.name

abbrev undo_all : List Upgrade → List Downgrade
undo_all [] = []
undo_all (u ∷ us) = undo_all us ++ undo u ∷ []

downgrade-undo_all : (v : Version) → downgrade v ≡ undo_all (upgrade v)
unfolding downgrade upgrade undo
downgrade-undo_all create_trades = refl
downgrade-undo_all add_exit_columns = refl
downgrade-undo_all create_daily_pnl = refl

-- `up` and `down` run one operation; `none` where the database refuses it.
module _ {Database : Type 0} (up : Upgrade → Database → Option Database)
    (down : Downgrade → Database → Option Database) where
  abbrev after {ℓ} : {A : Type ℓ} → Option Database → (Database → Option A) → Option A
  after none f = none
  after (some db) f = f db

  abbrev pub up_all : List Upgrade → Database → Option Database
  up_all [] db = some db
  up_all (u ∷ us) db = after (up u db) (up_all us)

  abbrev pub down_all : List Downgrade → Database → Option Database
  down_all [] db = some db
  down_all (d ∷ ds) db = after (down d db) (down_all ds)

  -- What two runs, one after the other, come to.
  after_assoc :
      {A : Type 0} (o : Option Database) (f : Database → Option Database) (g : Database → Option A)
      → after (after o f) g ≡ after o (λ db. after (f db) g)
  after_assoc none f g = refl
  after_assoc (some db) f g = refl

  down_all-append :
      (ds es : List Downgrade) (db : Database)
      → down_all (ds ++ es) db ≡ after (down_all ds db) (down_all es)
  down_all-append [] es db = refl
  down_all-append (d ∷ ds) es db =
      ap (after (down d db)) (fun_ext (down_all-append ds es))
      ∙ sym (after_assoc (down d db) (down_all ds) (down_all es))

  module _
      (takes_back : (u : Upgrade) (db db' : Database)
        → up u db ≡ some db'
        → down (undo u) db' ≡ some db) where
    undo_all_lem :
        (us : List Upgrade) (db db' : Database)
        → up_all us db ≡ some db'
        → down_all (undo_all us) db' ≡ some db
    undo_all_lem [] db db' h = sym h
    undo_all_lem (u ∷ us) db db' h = elim (Option-cases (up u db)) [
      | inl refused ↦ cc (sym (ap (λ o. after o (up_all us)) refused) ∙ h)
      | inr (mid, done) ↦
          let rest = sym (ap (λ o. after o (up_all us)) done) ∙ h in
          down_all-append (undo_all us) (undo u ∷ []) db'
          ∙ ap (λ o. after o (down_all (undo u ∷ []))) (undo_all_lem us mid db' rest)
          ∙ ap (λ o. after o (down_all [])) (takes_back u db mid done)
    ]

    -- For a database that takes an operation back by the operation that drops what it made, the
    -- downgrade of a version runs on whatever its upgrade made of a database, and gives that
    -- database back.
    pub downgrade_restores :
        (v : Version) (db db' : Database)
        → up_all (upgrade v) db ≡ some db'
        → down_all (downgrade v) db' ≡ some db
    downgrade_restores v db db' h =
        ap (λ ds. down_all ds db') (downgrade-undo_all v) ∙ undo_all_lem (upgrade v) db db' h
