-- ===== src/Services/Keys/Ledger/Close.antt =====
-- Lemmas about the step that forgets a live key.
use quant_execution.Base.{
  Text, ◌≡◌, sym, ap, ap₂, ◌∙◌, true, false, arith, inl, inr, Bool-cases, text_eq, text_eq_iff,
  contains_text, text_keys,
}
use quant_execution.Services.Keys.{KeyState, compose_key, attempt_of, discard_key, forget}
use quant_execution.Services.Keys.Ledger.{
  Ledger, base_of, attempt_in, Known, Current, IsFresh, discard-parts, attempt_of-forget,
  seen-forget,
}

module _ (l : Ledger) (key : Text) (fresh : IsFresh l)
    (alive : contains_text l.live key ≡ true) where
  abbrev closed_keys : KeyState
  closed_keys = forget key l.keys

  key-Current : Current l.keys key
  key-Current = fresh.current key alive

  latest_of_base :
      (k : Text) → base_of key ≡ base_of k → attempt_in key ≡ attempt_of (base_of k) l.keys
  latest_of_base k same = key-Current.latest ∙ ap (λ b. attempt_of b l.keys) same

  -- A key of the same base and attempt as the closed one is the closed one.
  same-key : (k : Text) → Current l.keys k → base_of key ≡ base_of k → text_eq k key ≡ true
  same-key k h same = (text_eq_iff k key).1 (
      sym h.composed
      ∙ ap₂ compose_key (sym same) (h.latest ∙ sym (latest_of_base k same))
      ∙ key-Current.composed)

  close-held :
      (k : Text)
      → Known l.keys k
      → attempt_in k ≡ attempt_of (base_of k) closed_keys
      → contains_text closed_keys.seen k ≡ true
  close-held k h e = elim (Bool-cases (text_eq (base_of key) (base_of k))) [
    | inl same ↦
        let e' = rw (attempt_of-forget, same) at e in
        let b = h.bounded in absurd (omega (arith, latest_of_base k ((text_eq_iff _ _).0 same)))
    | inr other ↦
        let e' = rw (attempt_of-forget, other) at e in
        rw seen-forget (
          ground (
            arith,
            h.held e',
            text_eq_iff k key,
            ap base_of,
            text_eq_iff (base_of key) (base_of k),
          ))
  ]

  -- The closed key was the latest of its base, so the counter only grows.
  close-Known : (k : Text) → Known l.keys k → Known closed_keys k
  close-Known k h = record {
    composed = h.composed;
    bounded =
        rw attempt_of-forget
          (ground (arith, text_eq_iff (base_of key) (base_of k), h.bounded, latest_of_base k));
    held = close-held k h;
  }

  close-Current : (k : Text) → text_eq k key ≡ false → Current l.keys k → Current closed_keys k
  close-Current k other h = record {
    composed = h.composed;
    latest =
        rw attempt_of-forget
          (ground (arith, text_eq_iff (base_of key) (base_of k), h.latest, same-key k h));
  }

  pub close-IsFresh : IsFresh (record l { keys = closed_keys; live = discard_key key l.live })
  close-IsFresh = record {
    known = λ k h. close-Known k (fresh.known k h);
    current = λ k h.
        let parts = discard-parts key k l.live h in
        close-Current k parts.0 (fresh.current k parts.1);
    unique = fresh.unique;
  }
