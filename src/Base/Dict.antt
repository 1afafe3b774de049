-- ===== src/Base/Dict.antt =====
-- Python's `dict`: an association list in insertion order. Assigning to a key that is present
-- keeps its place.
use quant_execution.Base.Compare.{KeyType, ◌==◌, if◌then◌else◌, Bool-cases}
use quant_execution.Base.Lists.{All}
use mathlib.Core.Path.{◌≡◌, refl, sym, subst, subst₂}
use mathlib.Core.Logic.{inl, inr}
use mathlib.Core.Bool.{false}
use mathlib.Core.Option.{Option, none, some}
use mathlib.Core.List.{List, [], ◌∷◌}
use native.Mathlib.Omega.{arith}

abbrev pub Dict {ℓ κ} : Type ℓ → Type κ → Type (ℓ ⊔ κ)
Dict K V = List (K × V)

module _ {ℓ κ} {K : Type ℓ} {V : Type κ} ⦃e : KeyType K⦄ where
  -- `d.get(k)`
  unfoldable pub lookup : K → Dict K V → Option V
  lookup k [] = none
  lookup k ((j, v) ∷ d) = if j == k then some v else lookup k d

  -- `d[k] = v`
  unfoldable pub insert : K → V → Dict K V → Dict K V
  insert k v [] = (k, v) ∷ []
  insert k v ((j, w) ∷ d) = if j == k then (j, v) ∷ d else (j, w) ∷ insert k v d

  -- `d.pop(k, None)`, `del d[k]`
  unfoldable pub erase : K → Dict K V → Dict K V
  erase k [] = []
  erase k ((j, w) ∷ d) = if j == k then d else (j, w) ∷ erase k d

  -- No key is listed twice.
  abbrev pub Distinct : Dict K V → Type κ
  Distinct [] = Unit
  Distinct ((j, w) ∷ d) = (lookup j d ≡ none) × Distinct d

  pub lookup-insert :
      (k j : K) (v : V) (d : Dict K V)
      → lookup j (insert k v d) ≡ (if k == j then some v else lookup j d)
  unfolding lookup insert
  lookup-insert k j v [] = refl
  lookup-insert k j v ((i, w) ∷ d) =
      ground
        (arith, e.same_key_iff k j, e.same_key_iff i k, e.same_key_iff i j, lookup-insert k j v d)

  pub lookup-erase_ne :
      (k j : K) (d : Dict K V) → (k == j) ≡ false → lookup j (erase k d) ≡ lookup j d
  unfolding lookup erase
  lookup-erase_ne k j [] h = refl
  lookup-erase_ne k j ((i, w) ∷ d) h =
      ground
        (arith, e.same_key_iff k j, e.same_key_iff i k, e.same_key_iff i j, lookup-erase_ne k j d h)

  pub lookup-erase_self : (k : K) (d : Dict K V) → Distinct d → lookup k (erase k d) ≡ none
  unfolding lookup erase
  lookup-erase_self k [] h = refl
  lookup-erase_self k ((i, w) ∷ d) h = ground (arith, e.same_key_iff i k, lookup-erase_self k d h.1)

  pub lookup-erase :
      (k j : K) (d : Dict K V)
      → Distinct d
      → lookup j (erase k d) ≡ (if k == j then none else lookup j d)
  lookup-erase k j d h = elim (Bool-cases (k == j)) [
    | inl same ↦ rw same (
        subst (λ x. lookup x (erase k d) ≡ none) ((e.same_key_iff k j).0 same)
          (lookup-erase_self k d h))
    | inr other ↦ rw other (lookup-erase_ne k j d other)
  ]

  pub erase-none : (k j : K) (d : Dict K V) → lookup j d ≡ none → lookup j (erase k d) ≡ none
  unfolding lookup erase
  erase-none k j [] h = refl
  erase-none k j ((i, w) ∷ d) h = ground (arith, e.same_key_iff i j, erase-none k j d)

  pub insert-Distinct : (k : K) (v : V) (d : Dict K V) → Distinct d → Distinct (insert k v d)
  unfolding lookup insert
  insert-Distinct k v [] h = (refl, tt)
  insert-Distinct k v ((i, w) ∷ d) h = ground (
    arith,
    insert-Distinct k v d h.1,
    lookup-insert k i v d,
    e.same_key_iff k i,
    e.same_key_iff i k,
  )

  pub erase-Distinct : (k : K) (d : Dict K V) → Distinct d → Distinct (erase k d)
  unfolding erase
  erase-Distinct k [] h = tt
  erase-Distinct k ((i, w) ∷ d) h = ground (arith, erase-Distinct k d h.1, erase-none k i d)

-- Predicates on every entry.
module _ {ℓ κ μ} {K : Type ℓ} {V : Type κ} ⦃e : KeyType K⦄ (P : K × V → Type μ) where
  pub lookup-All : (k : K) (v : V) (d : Dict K V) → All P d → lookup k d ≡ some v → P (k, v)
  unfolding lookup
  lookup-All k v [] h f = cc
  lookup-All k v ((j, w) ∷ d) h f = elim (Bool-cases (j == k)) [
    | inl same ↦
        let key : j ≡ k = (e.same_key_iff j k).0 same in
        let val : w ≡ v = ground arith in subst₂ (λ x y. P (x, y)) key val h.0
    | inr other ↦ lookup-All k v d h.1 (rw other at f)
  ]

  pub insert-All : (k : K) (v : V) (d : Dict K V) → P (k, v) → All P d → All P (insert k v d)
  unfolding insert
  insert-All k v [] p h = (p, tt)
  insert-All k v ((j, w) ∷ d) p h = elim (Bool-cases (j == k)) [
    | inl same ↦ rw same (subst (λ x. P (x, v)) (sym ((e.same_key_iff j k).0 same)) p, h.1)
    | inr other ↦ rw other (h.0, insert-All k v d p h.1)
  ]

  pub erase-All : (k : K) (d : Dict K V) → All P d → All P (erase k d)
  unfolding erase
  erase-All k [] h = tt
  erase-All k ((j, w) ∷ d) h = elim (Bool-cases (j == k)) [
    | inl same ↦ rw same h.1
    | inr other ↦ rw other (h.0, erase-All k d h.1)
  ]
