-- ===== src/Migrations/Relocation.antt =====
-- `include_object`, `relocate_legacy_tables` and the two runs of the migrations of alembic/env.py. Of the
-- database the model takes that `information_schema.tables` lists its relations, and that
-- `ALTER TABLE … SET SCHEMA` changes the schema of the relation that it names and nothing else.
pub mod Moves
pub mod Laws
use quant_execution.Base.{
  ℕ, Text, Bool, true, false, ◌&&◌, ◌||◌, not, Option, none, some, List, [], ◌∷◌, ◌++◌, codes,
  if◌then◌else◌, text_eq, map,
}

-- A relation of the database. `base` is the test `table_type = 'BASE TABLE'`; `rows` stands for
-- what the relation holds.
pub record Relation : Type 0 where
  pub schema : Text
  pub name : Text
  pub base : Bool
  pub rows : ℕ

abbrev pub Catalog : Type 0
Catalog = List Relation

-- `LEGACY_SCHEMA` and `VERSION_TABLE`
abbrev pub legacy : Text
legacy = codes "public"

abbrev pub version_table : Text
version_table = codes "alembic_version_quant_execution"

-- `include_object`, with the schema that the object has, if it has one.
unfoldable pub include_object : Text → Text → Option Text → Bool
include_object target type schema =
    if text_eq type (codes "table")
    then elim schema [ none ↦ false | some s ↦ text_eq s target ]
    else true

abbrev pub is_at : Text → Text → Relation → Bool
is_at schema name r = text_eq r.schema schema && text_eq r.name name

-- The two subqueries on `information_schema.tables`.
unfoldable pub has_relation : Text → Text → Catalog → Bool
has_relation schema name [] = false
has_relation schema name (r ∷ rs) = is_at schema name r || has_relation schema name rs

unfoldable pub has_base_table : Text → Text → Catalog → Bool
has_base_table schema name [] = false
has_base_table schema name (r ∷ rs) =
    (is_at schema name r && r.base) || has_base_table schema name rs

unfoldable pub needs_move : Text → Text → Catalog → Bool
needs_move target name rs = has_base_table legacy name rs && not (has_relation target name rs)

-- `ALTER TABLE "public"."name" SET SCHEMA "target"`
unfoldable pub moved_if : Text → Text → Relation → Relation
moved_if target name r = if is_at legacy name r then record r { schema = target } else r

unfoldable pub set_schema : Text → Text → Catalog → Catalog
set_schema target name rs = map (moved_if target name) rs

-- One iteration of the loop.
unfoldable pub relocate_one : Text → Text → Catalog → Catalog
relocate_one target name rs = if needs_move target name rs then set_schema target name rs else rs

unfoldable pub relocate_all : Text → List Text → Catalog → Catalog
relocate_all target [] rs = rs
relocate_all target (name ∷ names) rs = relocate_all target names (relocate_one target name rs)

-- The names of the tables on `Base.metadata`, and the version table.
abbrev pub owned : List Text
owned = codes "trades" ∷ codes "daily_pnl" ∷ version_table ∷ []

-- `relocate_legacy_tables`
unfoldable pub relocate_legacy_tables : Text → Catalog → Catalog
relocate_legacy_tables target rs =
    if text_eq target legacy then rs else relocate_all target owned rs

-- The statements of a run of the migrations in its transaction, in order.
pub data Statement : Type 0 where
  advisory_lock : ℕ → Statement
  create_schema : Text → Statement
  relocate : Statement
  set_search_path : Text → Statement
  run_migrations : Statement

unfoldable pub run_migrations_online : Text → List Statement
run_migrations_online target =
    advisory_lock 528374091
    ∷ create_schema target
    ∷ relocate
    ∷ set_search_path target
    ∷ run_migrations
    ∷ []

unfoldable pub run_migrations_offline : List Statement
run_migrations_offline = run_migrations ∷ []

-- What the module runs, by `context.is_offline_mode()`.
unfoldable pub run_env : Bool → Text → List Statement
run_env offline target = if offline then run_migrations_offline else run_migrations_online target
