-- ===== src/Clients/Retry.antt =====
-- `_request` of src/quant_execution/clients/alpaca_client.py and clients/cash_client.py, which are
-- the same loop. The server and the network are the answers, the n-th one to the n-th attempt.
use quant_execution.Base.{
  ℕ, zero, suc, ◌+◌, ◌<◌, ◌≡◌, refl, ap, ◌∙◌, Option, none, some, arith, inl, inr, ltb, ◌⊎◌,
  Option-cases, if◌then◌else◌,
}

-- One attempt: a payload, a status of 4xx or 5xx, or an `httpx.TransportError` or a `ValueError` of
-- `response.json()`.
pub data Attempt (A : Type 0) : Type 0 where
  payload : A → Attempt A
  http_status : ℕ → Attempt A
  no_response : Attempt A

-- What the call gives: a payload, or the client's error, at a rejection or after the last attempt.
pub data Outcome (A : Type 0) : Type 0 where
  returned : A → Outcome A
  rejected : ℕ → Outcome A
  exhausted : Outcome A

module _ {A : Type 0} where
  -- What one attempt decides: `none` where the loop goes on.
  unfoldable pub decided : Attempt A → Option (Outcome A)
  decided (payload a) = some (returned a)
  decided (http_status code) = if ltb code 500 then some (rejected code) else none
  decided no_response = none

  abbrev or_again : Option (Outcome A) → Outcome A × ℕ → Outcome A × ℕ
  or_again none (o, n) = (o, suc n)
  or_again (some o) rest = (o, 1)

  -- The loop, with the attempts that are left, from an attempt on; the outcome and the number of
  -- attempts made.
  unfoldable pub request_from : (ℕ → Attempt A) → ℕ → ℕ → Outcome A × ℕ
  request_from answers k zero = (exhausted, 0)
  request_from answers k (suc left) =
      let rest = request_from answers (suc k) left in or_again (decided (answers k)) rest

  -- `_request` with `max_attempts`
  unfoldable pub request : (ℕ → Attempt A) → ℕ → Outcome A × ℕ
  request answers max_attempts = request_from answers 0 max_attempts

  -- The attempt of that number, from `k` on, is the first that decides, and decides that outcome.
  abbrev pub FirstFrom : (ℕ → Attempt A) → ℕ → ℕ → Outcome A × ℕ → Type 0
  FirstFrom answers k left r =
      (i : ℕ) × (i < left)
      × (decided (answers (k + i)) ≡ some r.0)
      × ((j : ℕ) → j < i → decided (answers (k + j)) ≡ none)
      × (r.1 ≡ suc i)

  abbrev pub NoneFrom : (ℕ → Attempt A) → ℕ → ℕ → Outcome A × ℕ → Type 0
  NoneFrom answers k left r =
      ((j : ℕ) → j < left → decided (answers (k + j)) ≡ none) × (r.0 ≡ exhausted) × (r.1 ≡ left)

  shift_none :
      (answers : ℕ → Attempt A) (k left : ℕ)
      → decided (answers k) ≡ none
      → ((j : ℕ) → j < left → decided (answers (suc k + j)) ≡ none)
      → (j : ℕ) → j < suc left
      → decided (answers (k + j)) ≡ none
  shift_none answers k left first rest zero h = ap (λ i. decided (answers i)) at ∙ first
    where
      at : k + zero ≡ k
      at = omega arith
  shift_none answers k left first rest (suc j) h =
      ap (λ i. decided (answers i)) at ∙ rest j (omega arith)
    where
      at : k + suc j ≡ suc k + j
      at = omega arith

  request_from_lem :
      (answers : ℕ → Attempt A) (k left : ℕ)
      → FirstFrom answers k left (request_from answers k left)
        ⊎ NoneFrom answers k left (request_from answers k left)
  unfolding request_from
  request_from_lem answers k zero = inr (λ j h. absurd (omega arith), refl, refl)
  request_from_lem answers k (suc left) = elim (Option-cases (decided (answers k))) [
    | inl again ↦ elim (request_from_lem answers (suc k) left) [
      | inl (i, below, gives, before, count) ↦ rw again (
          inl (
            suc i,
            omega arith,
            ap (λ n. decided (answers n)) (shift k i) ∙ gives,
            shift_none answers k i again before,
            ap suc count,
          ))
      | inr (all, o, count) ↦ rw again (inr (shift_none answers k left again all, o, ap suc count))
    ]
    | inr (o, now) ↦ rw now (
        inl (
          zero,
          omega arith,
          ap (λ n. decided (answers n)) (here k) ∙ now,
          λ j h. absurd (omega arith),
          refl,
        ))
  ]
    where
      shift : (k i : ℕ) → k + suc i ≡ suc k + i
      shift k i = omega arith

      here : (k : ℕ) → k + zero ≡ k
      here k = omega arith

  -- A request ends at the first attempt that brings a payload or a 4xx, within the limit, with what
  -- that attempt brings, or makes every attempt of the limit, all failed otherwise, and is
  -- exhausted.
  pub request_first :
      (answers : ℕ → Attempt A) (max_attempts : ℕ)
      → FirstFrom answers 0 max_attempts (request answers max_attempts)
        ⊎ NoneFrom answers 0 max_attempts (request answers max_attempts)
  unfolding request
  request_first answers max_attempts = request_from_lem answers 0 max_attempts
