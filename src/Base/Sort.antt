-- ===== src/Base/Sort.antt =====
-- A stable sort, the `ORDER BY` of a query, and lists in order. `before x y` tells that `x` may
-- stand before `y`.
use mathlib.Core.Bool.{Bool, true, false}
use mathlib.Core.List.{List, [], ◌∷◌, ◌++◌, Perm}
use mathlib.Core.List.Perm
use mathlib.Core.Logic.{inl, inr}
use mathlib.Core.Path.{◌≡◌, refl}
use quant_execution.Base.Compare.{if◌then◌else◌, Bool-cases}
use native.Mathlib.Omega.{arith}
use quant_execution.Base.Lists.{All, length, take, drop, keep_if}
use Prim.Native.Nat.{ℕ, zero, suc}

-- The laws of an order test: of two values one may stand first, and first of the first is first.
pub record OrderLaws {ℓ} {A : Type ℓ} (before : A → A → Bool) : Type ℓ where
  pub total : (x y : A) → before x y ≡ false → before y x ≡ true
  pub trans : (x y z : A) → before x y ≡ true → before y z ≡ true → before x z ≡ true

module _ {ℓ} {A : Type ℓ} where
  unfoldable pub insert_with : (A → A → Bool) → A → List A → List A
  insert_with before x [] = x ∷ []
  insert_with before x (y ∷ ys) =
      let rest = insert_with before x ys in if before x y then x ∷ y ∷ ys else y ∷ rest

  unfoldable pub sort_with : (A → A → Bool) → List A → List A
  unfolding insert_with
  sort_with before [] = []
  sort_with before (x ∷ xs) = insert_with before x (sort_with before xs)

  -- Every element may stand before all that follow it.
  abbrev pub InOrder : (A → A → Bool) → List A → Type ℓ
  InOrder before [] = Unit
  InOrder before (x ∷ xs) = All (λ y. before x y ≡ true) xs × InOrder before xs

  insert_with-perm :
      (before : A → A → Bool) (x : A) (xs : List A) → Perm (insert_with before x xs) (x ∷ xs)
  unfolding insert_with
  insert_with-perm before x [] = Perm.refl (x ∷ [])
  insert_with-perm before x (y ∷ ys) = elim (Bool-cases (before x y)) [
    | inl first ↦ rw first (Perm.refl (x ∷ y ∷ ys))
    | inr later ↦
        rw later (Perm.trans (Perm.cons y (insert_with-perm before x ys)) (Perm.swap x y ys))
  ]

  -- A sorted list has the elements of the list that was sorted.
  pub sort_with-perm : (before : A → A → Bool) (xs : List A) → Perm (sort_with before xs) xs
  unfolding sort_with
  sort_with-perm before [] = Perm.refl []
  sort_with-perm before (x ∷ xs) =
      Perm.trans (insert_with-perm before x (sort_with before xs))
        (Perm.cons x (sort_with-perm before xs))

  length-insert_with :
      (before : A → A → Bool) (x : A) (xs : List A)
      → length (insert_with before x xs) ≡ suc (length xs)
  unfolding insert_with
  length-insert_with before x [] = refl
  length-insert_with before x (y ∷ ys) = ground (arith, length-insert_with before x ys)

  pub length-sort_with :
      (before : A → A → Bool) (xs : List A) → length (sort_with before xs) ≡ length xs
  unfolding sort_with
  length-sort_with before [] = refl
  length-sort_with before (x ∷ xs) =
      omega (arith, length-insert_with before x (sort_with before xs), length-sort_with before xs)

module _ {ℓ κ} {A : Type ℓ} (P : A → Type κ) where
  insert_with-All :
      (before : A → A → Bool) (x : A) (xs : List A)
      → P x
      → All P xs
      → All P (insert_with before x xs)
  unfolding insert_with
  insert_with-All before x [] p h = (p, tt)
  insert_with-All before x (y ∷ ys) p h = elim (Bool-cases (before x y)) [
    | inl first ↦ rw first (p, h)
    | inr later ↦ rw later (h.0, insert_with-All before x ys p h.1)
  ]

  pub sort_with-All : (before : A → A → Bool) (xs : List A) → All P xs → All P (sort_with before xs)
  unfolding sort_with
  sort_with-All before [] h = tt
  sort_with-All before (x ∷ xs) h = insert_with-All before x _ h.0 (sort_with-All before xs h.1)

  pub take-All : (n : ℕ) (xs : List A) → All P xs → All P (take n xs)
  take-All zero xs h = tt
  take-All (suc n) [] h = tt
  take-All (suc n) (x ∷ xs) h = (h.0, take-All n xs h.1)

  pub drop-All : (n : ℕ) (xs : List A) → All P xs → All P (drop n xs)
  drop-All zero xs h = h
  drop-All (suc n) [] h = tt
  drop-All (suc n) (x ∷ xs) h = drop-All n xs h.1

  pub append-All : (xs ys : List A) → All P xs → All P ys → All P (xs ++ ys)
  append-All [] ys h k = k
  append-All (x ∷ xs) ys h k = (h.0, append-All xs ys h.1 k)

  pub keep_if-keeps : (p : A → Bool) (xs : List A) → All P xs → All P (keep_if p xs)
  keep_if-keeps p [] h = tt
  keep_if-keeps p (x ∷ xs) h = elim (Bool-cases (p x)) [
    | inl here ↦ rw here (h.0, keep_if-keeps p xs h.1)
    | inr other ↦ rw other (keep_if-keeps p xs h.1)
  ]

module _ {ℓ κ} {A : Type ℓ} {P Q : A → Type κ} where
  pub All-map : ((x : A) → P x → Q x) → (xs : List A) → All P xs → All Q xs
  All-map f [] h = tt
  All-map f (x ∷ xs) h = (f x h.0, All-map f xs h.1)

module _ {ℓ} {A : Type ℓ} where
  pub keep_if-All : (p : A → Bool) (xs : List A) → All (λ x. p x ≡ true) (keep_if p xs)
  keep_if-All p [] = tt
  keep_if-All p (x ∷ xs) = elim (Bool-cases (p x)) [
    | inl here ↦ rw here (here, keep_if-All p xs)
    | inr other ↦ rw other (keep_if-All p xs)
  ]

module _ {ℓ} {A : Type ℓ} (before : A → A → Bool) (laws : OrderLaws before) where
  insert_with-InOrder :
      (x : A) (xs : List A) → InOrder before xs → InOrder before (insert_with before x xs)
  unfolding insert_with
  insert_with-InOrder x [] h = (tt, tt)
  insert_with-InOrder x (y ∷ ys) h = elim (Bool-cases (before x y)) [
    | inl first ↦ rw first (((first, All-map (λ z. laws.trans x y z first) ys h.0), (h.0, h.1)))
    | inr later ↦ rw later (
      insert_with-All (λ z. before y z ≡ true) before x ys (laws.total x y later) h.0,
      insert_with-InOrder x ys h.1,
    )
  ]

  -- A sorted list is in order.
  pub sort_with-InOrder : (xs : List A) → InOrder before (sort_with before xs)
  unfolding sort_with
  sort_with-InOrder [] = tt
  sort_with-InOrder (x ∷ xs) = insert_with-InOrder x (sort_with before xs) (sort_with-InOrder xs)

  pub drop-InOrder : (n : ℕ) (xs : List A) → InOrder before xs → InOrder before (drop n xs)
  drop-InOrder zero xs h = h
  drop-InOrder (suc n) [] h = tt
  drop-InOrder (suc n) (x ∷ xs) h = drop-InOrder n xs h.1

  pub take-InOrder : (n : ℕ) (xs : List A) → InOrder before xs → InOrder before (take n xs)
  take-InOrder zero xs h = tt
  take-InOrder (suc n) [] h = tt
  take-InOrder (suc n) (x ∷ xs) h =
      (take-All (λ z. before x z ≡ true) n xs h.0, take-InOrder n xs h.1)
