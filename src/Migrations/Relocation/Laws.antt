-- ===== src/Migrations/Relocation/Laws.antt =====
-- What `relocate_legacy_tables` of alembic/env.py does to any catalog.
use quant_execution.Base.{
  Text, ◌≡◌, refl, sym, ap, ap₂, subst, ◌∙◌, true, false, ◌&&◌, not, none, if◌then◌else◌, List, [],
  ◌∷◌, arith, text_eq, text_eq_iff, contains_text, All, inl, inr, Bool-cases, ◌⊎◌,
}
use quant_execution.Migrations.Relocation.{
  Catalog, legacy, needs_move, relocate_one, relocate_all, relocate_legacy_tables, owned,
}
use quant_execution.Migrations.Relocation.Moves.{
  rows_at, other_relation, other_base, other_rows, gone_base, come_rows, gone_rows,
}

module _ (target : Text) (apart : text_eq target legacy ≡ false) where
  -- A name with nothing left to move.
  abbrev Settled : Text → Catalog → Type 0
  Settled name rs = needs_move target name rs ≡ false

  one_settles : (name : Text) (rs : Catalog) → Settled name (relocate_one target name rs)
  unfolding relocate_one
  one_settles name rs = elim (Bool-cases (needs_move target name rs)) [
    | inl wanted ↦ rw wanted (unfold needs_move in ground (arith, gone_base target apart name rs))
    | inr settled ↦ rw settled settled
  ]

  one_other :
      (name other : Text) (rs : Catalog)
      → text_eq name other ≡ false
      → (needs_move target other (relocate_one target name rs) ≡ needs_move target other rs)
        × ((schema : Text)
            → rows_at schema other (relocate_one target name rs) ≡ rows_at schema other rs)
  unfolding relocate_one needs_move
  one_other name other rs h = elim (Bool-cases (needs_move target name rs)) [
    | inl wanted ↦ rw wanted (
      ap₂ (λ b c. b && not c) (other_base target apart legacy name other rs h)
          (other_relation target apart target name other rs h),
      λ schema. other_rows target apart schema name other rs h,
    )
    | inr settled ↦ rw settled (refl, λ schema. refl)
  ]

  one_unmoved : (name : Text) (rs : Catalog) → Settled name rs → relocate_one target name rs ≡ rs
  unfolding relocate_one
  one_unmoved name rs h = rw h refl

  one_keeps :
      (name other : Text) (rs : Catalog)
      → Settled other rs
      → Settled other (relocate_one target name rs)
  one_keeps name other rs h = elim (Bool-cases (text_eq name other)) [
    | inl same ↦
        subst (λ n. Settled n (relocate_one target name rs)) ((text_eq_iff name other).0 same)
          (one_settles name rs)
    | inr apart' ↦ (one_other name other rs apart').0 ∙ h
  ]

  all_keeps :
      (names : List Text) (other : Text) (rs : Catalog)
      → Settled other rs
      → Settled other (relocate_all target names rs)
  unfolding relocate_all
  all_keeps [] other rs h = h
  all_keeps (name ∷ names) other rs h =
      all_keeps names other (relocate_one target name rs) (one_keeps name other rs h)

  all_settles :
      (names : List Text) (rs : Catalog) → All (λ n. Settled n (relocate_all target names rs)) names
  unfolding relocate_all
  all_settles [] rs = tt
  all_settles (name ∷ names) rs = (
    all_keeps names name (relocate_one target name rs) (one_settles name rs),
    all_settles names (relocate_one target name rs),
  )

  all_unmoved :
      (names : List Text) (rs : Catalog)
      → All (λ n. Settled n rs) names
      → relocate_all target names rs ≡ rs
  unfolding relocate_all
  all_unmoved [] rs h = refl
  all_unmoved (name ∷ names) rs h =
      ap (relocate_all target names) (one_unmoved name rs h.0) ∙ all_unmoved names rs h.1

  -- The rows of a place under a name that is settled, or that is not among the names, stay.
  all_rows :
      (names : List Text) (schema other : Text) (rs : Catalog)
      → (contains_text names other ≡ false) ⊎ Settled other rs
      → rows_at schema other (relocate_all target names rs) ≡ rows_at schema other rs
  unfolding relocate_all contains_text
  all_rows [] schema other rs h = refl
  all_rows (name ∷ names) schema other rs h = elim (Bool-cases (text_eq name other)) [
    | inl same ↦ elim h [
      | inl missing ↦ absurd (ground (arith, same, missing))
      | inr settled ↦
          let settled' =
            subst (λ n. Settled n rs) (sym ((text_eq_iff name other).0 same)) settled in
          ap (λ c. rows_at schema other (relocate_all target names c))
            (one_unmoved name rs settled')
          ∙ all_rows names schema other rs (inr settled)
    ]
    | inr apart' ↦
        all_rows names schema other (relocate_one target name rs) (elim h [
          | inl missing ↦ inl (ground (arith, apart', missing))
          | inr settled ↦ inr (one_keeps name other rs settled)
        ])
        ∙ (one_other name other rs apart').1 schema
  ]

  -- The rows of a name have gone over from `public` to the target schema.
  abbrev GoesOver : Text → Catalog → Catalog → Type 0
  GoesOver name rs after =
      (rows_at target name after ≡ rows_at legacy name rs) × (rows_at legacy name after ≡ none)

  one_comes :
      (name : Text) (rs : Catalog)
      → needs_move target name rs ≡ true
      → GoesOver name rs (relocate_one target name rs)
  unfolding relocate_one
  one_comes name rs h = rw h (
    come_rows target apart name rs (unfold needs_move in ground (arith, h)),
    gone_rows target apart name rs,
  )

  all_comes :
      (names : List Text) (other : Text) (rs : Catalog)
      → contains_text names other ≡ true
      → needs_move target other rs ≡ true
      → GoesOver other rs (relocate_all target names rs)
  unfolding relocate_all contains_text
  all_comes [] other rs h wanted = cc
  all_comes (name ∷ names) other rs h wanted = elim (Bool-cases (text_eq name other)) [
    | inl same ↦
        let e = (text_eq_iff name other).0 same in
        let settled =
          subst (λ n. Settled n (relocate_one target name rs)) e (one_settles name rs) in
        let stays = λ (schema : Text).
          all_rows names schema other (relocate_one target name rs) (inr settled) in
        let over =
          subst (λ n. GoesOver n rs (relocate_one target name rs)) e
            (one_comes name rs (subst (λ n. needs_move target n rs ≡ true) (sym e) wanted)) in
        (stays target ∙ over.0, stays legacy ∙ over.1)
    | inr apart' ↦
        let step = one_other name other rs apart' in
        let over =
          all_comes names other (relocate_one target name rs) (ground (arith, apart', h))
            (step.0 ∙ wanted) in
        (over.0 ∙ step.1 legacy, over.1)
  ]

module _ (target : Text) (apart : text_eq target legacy ≡ false) (rs : Catalog) where
  -- After the relocation none of the owned tables is left to be moved, so a second one changes
  -- nothing.
  pub relocate_legacy_tables_again :
      All (λ n. needs_move target n (relocate_legacy_tables target rs) ≡ false) owned
      × (relocate_legacy_tables target (relocate_legacy_tables target rs)
          ≡ relocate_legacy_tables target rs)
  unfolding relocate_legacy_tables
  relocate_legacy_tables_again = rw apart (
    all_settles target apart owned rs,
    all_unmoved target apart owned (relocate_all target owned rs)
        (all_settles target apart owned rs),
  )

  -- A table of the service that is in `public`, with nothing of its name in the target schema, is in
  -- the target schema afterwards, with the rows that it had, and no longer in `public`; under every
  -- other name both schemas hold what they held.
  pub relocate_legacy_tables_rows :
      (name : Text)
      → let moves = contains_text owned name && needs_move target name rs in
        let after = relocate_legacy_tables target rs in
        (rows_at target name after
          ≡ (if moves then rows_at legacy name rs else rows_at target name rs))
        × (rows_at legacy name after ≡ (if moves then none else rows_at legacy name rs))
  unfolding relocate_legacy_tables
  relocate_legacy_tables_rows name = rw apart (elim (Bool-cases (contains_text owned name)) [
    | inl mine ↦ elim (Bool-cases (needs_move target name rs)) [
      | inl wanted ↦ rw (mine, wanted) (all_comes target apart owned name rs mine wanted)
      | inr settled ↦
          rw (mine, settled)
            (
              all_rows target apart owned target name rs (inr settled),
              all_rows target apart owned legacy name rs (inr settled),
            )
    ]
    | inr missing ↦ rw missing (
      all_rows target apart owned target name rs (inl missing),
      all_rows target apart owned legacy name rs (inl missing),
    )
  ])
