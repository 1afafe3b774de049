-- ===== src/Database/Startup.antt =====
-- The loop of `wait_for_table` of src/quant_execution/db.py over a clock that goes on by at least
-- the interval with each `time.sleep(interval)`.
use quant_execution.Base.{
  ℕ, zero, suc, ◌+◌, ◌*◌, ◌≤◌, ◌<◌, ◌≡◌, refl, ap, ◌⊎◌, inl, inr, Bool, true, false, Option, some,
  arith, leb, leb→le, nat_eq, nat_eq_iff, Bool-cases, sym, subst, ◌∙◌,
}
use quant_execution.Database.{present, wait_from, wait_for_table}

module _ (probe : ℕ → Option Bool) (clock : ℕ → ℕ) (start interval : ℕ)
    (not_before : start ≤ clock 0) (sleeps : (i : ℕ) → clock i + interval ≤ clock (suc i)) where
  elapsed : (i : ℕ) → start + i * interval ≤ clock i
  elapsed zero = omega (arith, not_before)
  elapsed (suc i) = omega (arith, elapsed i, sleeps i)

  -- How the wait ends in round `last`: the table was absent in every earlier round, and then it is
  -- there, or it is absent still and the deadline has passed.
  abbrev pub EndsAt : ℕ → ℕ → Bool → Type 0
  EndsAt deadline last found =
      ((i : ℕ) → i < last → present (probe i) ≡ false)
      × (present (probe last) ≡ found)
      × ((found ≡ true) ⊎ (deadline ≤ clock last))

  absent_to :
      (i : ℕ)
      → present (probe i) ≡ false
      → ((j : ℕ) → j < i → present (probe j) ≡ false)
      → (j : ℕ) → j < suc i
      → present (probe j) ≡ false
  absent_to i here before j h = elim (Bool-cases (nat_eq j i)) [
    | inl same ↦ subst (λ k. present (probe k) ≡ false) (sym ((nat_eq_iff j i).0 same)) here
    | inr other ↦ before j (ground arith)
  ]

  abbrev Outcome : ℕ → ℕ → ℕ → Type 0
  Outcome deadline rounds i =
      (found : Bool) × (last : ℕ) × (last ≤ i + rounds)
      × (wait_from probe clock deadline (suc rounds) i ≡ some found)
      × EndsAt deadline last found

  -- The round in which the loop does not return.
  next_round :
      (deadline rounds i : ℕ)
      → present (probe i) ≡ false
      → leb deadline (clock i) ≡ false
      → wait_from probe clock deadline (suc rounds) i
        ≡ wait_from probe clock deadline rounds (suc i)
  unfolding wait_from
  next_round deadline rounds i absent early = rw (absent, early) refl

  last_round : (deadline i : ℕ) → leb deadline (clock i) ≡ false → deadline ≤ clock (i + 0) → ⊥
  last_round deadline i early enough = ground (arith, at_end)
    where
      at_end : clock (i + 0) ≡ clock i
      at_end = ap clock (omega arith)

  -- One round, with what follows when it does not return.
  round-ends :
      (rounds deadline i : ℕ)
      → ((j : ℕ) → j < i → present (probe j) ≡ false)
      → (present (probe i) ≡ false → leb deadline (clock i) ≡ false → Outcome deadline rounds i)
      → Outcome deadline rounds i
  unfolding wait_from
  round-ends rounds deadline i before later = elim (Bool-cases (present (probe i))) [
    | inl here ↦ (true, i, omega arith, rw here refl, (before, here, inl refl))
    | inr absent ↦ elim (Bool-cases (leb deadline (clock i))) [
      | inl late ↦ (
        false,
        i,
        omega arith,
        rw (absent, late) refl,
        (before, absent, inr (leb→le deadline (clock i) late)),
      )
      | inr early ↦ later absent early
    ]
  ]

  wait_from-ends :
      (rounds deadline i : ℕ)
      → deadline ≤ clock (i + rounds)
      → ((j : ℕ) → j < i → present (probe j) ≡ false)
      → Outcome deadline rounds i
  wait_from-ends zero deadline i enough before =
      round-ends zero deadline i before
        (λ absent early. absurd (last_round deadline i early enough))
  wait_from-ends (suc r) deadline i enough before =
      round-ends (suc r) deadline i before (λ absent early.
        let (found, last, within, e, ends) =
          wait_from-ends r deadline (suc i) (subst (λ k. deadline ≤ clock k) (moved r i) enough)
            (absent_to i absent before) in
        (found, last, omega (arith, within), next_round deadline (suc r) i absent early ∙ e, ends))
    where
      moved : (m n : ℕ) → n + suc m ≡ suc n + m
      moved m n = omega arith

  -- `wait_for_table` returns: when it may look once more than the number of intervals that make up
  -- the timeout, on a clock that starts at the call and goes on by at least the interval in each
  -- round, there is a round in which it ends, the first that finds the table or one past the
  -- deadline that does not, and it answers whether that round found it.
  pub wait_for_table-ends :
      (timeout rounds : ℕ)
      → timeout ≤ rounds * interval
      → (found : Bool) × (last : ℕ) × (last ≤ rounds)
        × (wait_for_table probe clock (suc rounds) start timeout ≡ some found)
        × EndsAt (start + timeout) last found
  unfolding wait_for_table
  wait_for_table-ends timeout rounds enough =
      let (found, last, within, e, ends) =
        wait_from-ends rounds (start + timeout) 0
          (subst (λ k. start + timeout ≤ clock k) (from_zero rounds)
            (omega (arith, elapsed rounds, enough)))
          (λ j h. absurd (omega arith)) in
      (found, last, omega (arith, within), e, ends)
    where
      from_zero : (n : ℕ) → n ≡ 0 + n
      from_zero n = omega arith
