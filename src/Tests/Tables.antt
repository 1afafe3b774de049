-- ===== src/Tests/Tables.antt =====
-- Sessions, start-up, migrations and log lines at concrete inputs.
use quant_execution.Base.{
  ℕ, suc, ◌+◌, ◌≤◌, ◌≡◌, ◌⊎◌, refl, arith, codes, Text, Bool, true, false, ◌&&◌, none, some, Option,
  List, [], ◌∷◌, if◌then◌else◌, contains_text, text_eq,
}
use quant_execution.Database.{Ended, returned, session_scope, wait_for_table}
use quant_execution.Database.Session.{
  Commits, RollsBack, in_memory, in_memory-laws, session_scope_atomic,
}
use quant_execution.Database.Startup.{EndsAt, wait_for_table-ends}
use quant_execution.Logging.{format_event, populated}
use quant_execution.Logging.Reader.{read_line, read_line-format_event}
use quant_execution.Migrations.Relocation.{
  Catalog, legacy, needs_move, relocate_legacy_tables, owned,
}
use quant_execution.Migrations.Relocation.Moves.{rows_at}
use quant_execution.Migrations.Relocation.Laws.{relocate_legacy_tables_rows}
use quant_execution.Migrations.Versions.{Upgrade, Downgrade, add_exit_columns, upgrade, downgrade}
use quant_execution.Migrations.Versions.Restore.{up_all, down_all, downgrade_restores}

-- A block that writes one row, in a session whose commits fail.
abbrev write_row : List ℕ × List ℕ → Ended (Unit {0}) ℕ × (List ℕ × List ℕ)
write_row s = (returned 1, (s.0, 7 ∷ s.1))

session_scope_atomic_example :
    Commits
      (in_memory false)
      (write_row ([], []))
      (session_scope (in_memory false) write_row ([], []))
    ⊎ RollsBack
        (in_memory false)
        ([], [])
        (write_row ([], []))
        (session_scope (in_memory false) write_row ([], []))
session_scope_atomic_example =
    session_scope_atomic (in_memory false) (in_memory-laws false) ([], []) write_row refl

-- The table comes with the second look; the clock counts seconds.
abbrev probe : ℕ → Option Bool
probe ℕ.zero = none
probe (suc n) = some true

abbrev clock : ℕ → ℕ
clock n = 100 + n

wait_for_table-ends_example :
    (found : Bool) × (last : ℕ) × (last ≤ 60)
    × (wait_for_table probe clock 61 100 60 ≡ some found)
    × EndsAt probe clock 100 1 (omega arith) (λ i. omega arith) (100 + 60) last found
wait_for_table-ends_example =
    wait_for_table-ends probe clock 100 1 (omega arith) (λ i. omega arith) 60 60 (omega arith)

abbrev catalog : Catalog
catalog =
    record { schema = legacy; name = codes "trades"; base = true; rows = 3 }
    ∷ record { schema = legacy; name = codes "accounts"; base = true; rows = 4 }
    ∷ []

abbrev target : Text
target = codes "execution"

relocate_legacy_tables_rows_example :
    let name = codes "trades" in
    let moves = contains_text owned name && needs_move target name catalog in
    let after = relocate_legacy_tables target catalog in
    (rows_at target name after
      ≡ (if moves then rows_at legacy name catalog else rows_at target name catalog))
    × (rows_at legacy name after ≡ (if moves then none else rows_at legacy name catalog))
unfolding text_eq
relocate_legacy_tables_rows_example =
    relocate_legacy_tables_rows target refl catalog (codes "trades")

-- A database that is the operations still to be taken back, the last one first.
abbrev push : Upgrade → List Upgrade → Option (List Upgrade)
push u done = some (u ∷ done)

abbrev pop : Downgrade → List Upgrade → Option (List Upgrade)
pop d [] = none
pop d (u ∷ done) = some done

abbrev upgraded : List Upgrade
upgraded = elim (up_all push pop (upgrade add_exit_columns) []) [ none ↦ [] | some db ↦ db ]

downgrade_restores_example : down_all push pop (downgrade add_exit_columns) upgraded ≡ some []
unfolding upgrade
downgrade_restores_example =
    downgrade_restores push pop (λ u db db' h. ground (arith, h)) add_exit_columns [] upgraded refl

-- `x a="b c"`, with a field that is `None`.
abbrev fields : List (Text × Option Text)
fields = (codes "a", some (codes "b c")) ∷ (codes "r", none) ∷ []

read_line-format_event_example :
    read_line 1 (format_event (codes "x") fields) ≡ (codes "x", populated fields)
read_line-format_event_example =
    read_line-format_event (codes "x") fields 1 (refl, tt)
      (((refl, tt), (refl, (refl, (refl, tt))), refl), tt) (omega arith)
