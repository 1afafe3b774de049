-- ===== src/Migrations/Relocation/Moves.antt =====
-- One `ALTER TABLE … SET SCHEMA` of alembic/env.py, and what it leaves at each place.
use quant_execution.Base.{
  ℕ, Text, ◌≡◌, refl, ap, ap₂, ◌∙◌, Bool, false, ◌&&◌, ◌||◌, Option, none, some, [], ◌∷◌, arith,
  if◌then◌else◌, text_eq, text_eq_iff, text_eq_refl, inl, inr, Bool-cases,
}
use quant_execution.Migrations.Relocation.{
  Relation, Catalog, legacy, is_at, has_relation, has_base_table, moved_if, set_schema,
}

-- What the relation at a place holds.
unfoldable pub rows_at : Text → Text → Catalog → Option ℕ
rows_at schema name [] = none
rows_at schema name (r ∷ rs) =
    let rest = rows_at schema name rs in if is_at schema name r then some r.rows else rest

module _ (target : Text) (apart : text_eq target legacy ≡ false) where
  -- A move of one name changes nothing at the places of another.
  other_at :
      (schema name other : Text) (r : Relation)
      → text_eq name other ≡ false
      → is_at schema other (moved_if target name r) ≡ is_at schema other r
  unfolding moved_if
  other_at schema name other r h =
      ground (arith, text_eq_iff name other, text_eq_iff r.name name, text_eq_iff r.name other)

  moved_same :
      (name : Text) (r : Relation)
      → ((moved_if target name r).name ≡ r.name)
        × ((moved_if target name r).base ≡ r.base)
        × ((moved_if target name r).rows ≡ r.rows)
  unfolding moved_if
  moved_same name r = elim (Bool-cases (is_at legacy name r)) [
    | inl here ↦ rw here (refl, refl, refl)
    | inr other ↦ rw other (refl, refl, refl)
  ]

  pub other_relation :
      (schema name other : Text) (rs : Catalog)
      → text_eq name other ≡ false
      → has_relation schema other (set_schema target name rs) ≡ has_relation schema other rs
  unfolding has_relation set_schema
  other_relation schema name other [] h = refl
  other_relation schema name other (r ∷ rs) h =
      ap₂ ◌||◌ (other_at schema name other r h) (other_relation schema name other rs h)

  pub other_base :
      (schema name other : Text) (rs : Catalog)
      → text_eq name other ≡ false
      → has_base_table schema other (set_schema target name rs) ≡ has_base_table schema other rs
  unfolding has_base_table set_schema
  other_base schema name other [] h = refl
  other_base schema name other (r ∷ rs) h =
      ap₂ ◌||◌ (ap₂ ◌&&◌ (other_at schema name other r h) (moved_same name r).1)
        (other_base schema name other rs h)

  abbrev step_rows : Bool → ℕ → Option ℕ → Option ℕ
  step_rows b n rest = if b then some n else rest

  pub other_rows :
      (schema name other : Text) (rs : Catalog)
      → text_eq name other ≡ false
      → rows_at schema other (set_schema target name rs) ≡ rows_at schema other rs
  unfolding rows_at set_schema
  other_rows schema name other [] h = refl
  other_rows schema name other (r ∷ rs) h =
      ap₂ (λ b n. step_rows b n (rows_at schema other (set_schema target name rs)))
        (other_at schema name other r h) (moved_same name r).2
      ∙ ap (step_rows (is_at schema other r) r.rows) (other_rows schema name other rs h)

  gone_at : (name : Text) (r : Relation) → is_at legacy name (moved_if target name r) ≡ false
  unfolding moved_if
  gone_at name r = ground (arith, apart)

  pub gone_base :
      (name : Text) (rs : Catalog) → has_base_table legacy name (set_schema target name rs) ≡ false
  unfolding has_base_table set_schema
  gone_base name [] = refl
  gone_base name (r ∷ rs) = ground (arith, gone_at name r, gone_base name rs)

  come_at :
      (name : Text) (r : Relation)
      → is_at target name r ≡ false
      → is_at target name (moved_if target name r) ≡ is_at legacy name r
  unfolding moved_if
  come_at name r h = ground (arith, text_eq_refl target)

  pub come_rows :
      (name : Text) (rs : Catalog)
      → has_relation target name rs ≡ false
      → rows_at target name (set_schema target name rs) ≡ rows_at legacy name rs
  unfolding rows_at set_schema has_relation
  come_rows name [] h = refl
  come_rows name (r ∷ rs) h =
      ap₂ (λ b n. step_rows b n (rows_at target name (set_schema target name rs)))
        (come_at name r (ground arith)) (moved_same name r).2
      ∙ ap (step_rows (is_at legacy name r) r.rows) (come_rows name rs (ground arith))

  pub gone_rows :
      (name : Text) (rs : Catalog) → rows_at legacy name (set_schema target name rs) ≡ none
  unfolding rows_at set_schema
  gone_rows name [] = refl
  gone_rows name (r ∷ rs) = rw (gone_at name r) (gone_rows name rs)
