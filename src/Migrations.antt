-- ===== src/Migrations.antt =====
-- alembic: the environment of the migrations and their versions.
pub mod Relocation
pub mod Versions
