-- ===== src/Services/Keys/Ledger/Issue.antt =====
-- Lemmas about the step that hands out a key.
use quant_execution.Base.{
  Text, ◌≡◌, sym, ap, subst, ◌∙◌, true, false, ◌∷◌, arith, inl, inr, Bool-cases, text_eq_refl,
  contains_text, text_keys,
}
use quant_execution.Services.Keys.{KeyState, compose_key, split_attempt, attempt_of, add_key}
use quant_execution.Services.Keys.Attempts.{IsBase, split-compose}
use quant_execution.Services.Keys.Ledger.{
  Ledger, base_of, attempt_in, Known, Current, IsFresh, attempt_of-seen, contains-cases,
  contains-add_key,
}

-- `key` is the text that `claim_key` makes, and it is not in use.
module _ (l : Ledger) (base key : Text) (plain : IsBase base) (fresh : IsFresh l)
    (made : key ≡ compose_key base (attempt_of base l.keys))
    (unused : contains_text l.keys.seen key ≡ false) where
  abbrev after : KeyState
  after = record l.keys { seen = add_key key l.keys.seen }

  key-split : split_attempt key ≡ (base, attempt_of base l.keys)
  key-split = ap split_attempt made ∙ split-compose base (attempt_of base l.keys) plain

  key-base : (split_attempt key).0 ≡ base
  key-base = ap (λ p. p.0) key-split

  key-attempt : (split_attempt key).1 ≡ attempt_of base l.keys
  key-attempt = ap (λ p. p.1) key-split

  -- A key that was handed out before and is the latest of its base is still in use.
  key-unissued : contains_text l.issued key ≡ false
  key-unissued = elim (Bool-cases (contains_text l.issued key)) [
    | inr new ↦ new
    | inl old ↦ absurd (
        clash
          ((fresh.known key old).held (key-attempt ∙ ap (λ b. attempt_of b l.keys) (sym key-base))))
  ]
    where
      clash : contains_text l.keys.seen key ≡ true → ⊥
      clash h = cc

  key-composed : compose_key (base_of key) (attempt_in key) ≡ key
  key-composed = rw (key-base, key-attempt) (sym made)

  key-latest : attempt_in key ≡ attempt_of (base_of key) after
  key-latest = rw (attempt_of-seen, key-base) key-attempt

  keep-Known : (k : Text) → Known l.keys k → Known after k
  keep-Known k h = record {
    composed = h.composed;
    bounded = rw attempt_of-seen h.bounded;
    held = λ e. rw contains-add_key (ground (arith, h.held (rw attempt_of-seen at e)));
  }

  new-Known : (k : Text) → key ≡ k → Known after k
  new-Known k same =
      subst (λ x. Known after x) same
        (record {
          composed = key-composed;
          bounded = omega (arith, key-latest);
          held = λ e. rw (contains-add_key, text_eq_refl);
        })

  keep-Current : (k : Text) → Current l.keys k → Current after k
  keep-Current k h = record { composed = h.composed; latest = rw attempt_of-seen h.latest }

  new-Current : (k : Text) → key ≡ k → Current after k
  new-Current k same =
      subst (λ x. Current after x) same (record { composed = key-composed; latest = key-latest })

  pub issue-IsFresh :
      IsFresh (record { keys = after; issued = key ∷ l.issued; live = key ∷ l.live })
  issue-IsFresh = record {
    known = λ k h. elim (contains-cases key k l.issued h) [
      | inl same ↦ new-Known k same
      | inr old ↦ keep-Known k (fresh.known k old)
    ];
    current = λ k h. elim (contains-cases key k l.live h) [
      | inl same ↦ new-Current k same
      | inr old ↦ keep-Current k (fresh.current k old)
    ];
    unique = (key-unissued, fresh.unique);
  }
