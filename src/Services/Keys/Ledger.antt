-- ===== src/Services/Keys/Ledger.antt =====
-- The keys in use over a run of claims and `forget`, as a step relation with its history.
pub mod Issue
pub mod Close
pub mod History
use quant_execution.Base.{
  ℕ, suc, ◌+◌, ◌≤◌, ◌<◌, Text, ◌≡◌, ◌≢◌, refl, sym, ap, ap₂, subst, ◌∙◌, Bool, true, false, not,
  ◌&&◌, ◌||◌, Option, none, some, List, [], ◌∷◌, arith, inl, inr, if◌then◌else◌, Bool-cases,
  text_eq, ◌⊎◌, text_eq_iff, text_eq_refl, contains_text, keep_if, text_keys,
}
use quant_execution.Base.Dict.{lookup, insert, lookup-insert}
use quant_execution.Services.Keys.{
  KeyState, compose_key, split_attempt, attempt_of, add_key, discard_key, claim_key, forget,
}
use quant_execution.Services.Keys.Attempts.{IsBase, split-compose}

pub contains-add_key :
    (k j : Text) (ks : List Text)
    → contains_text (add_key k ks) j ≡ (text_eq k j || contains_text ks j)
unfolding add_key contains_text
contains-add_key k j ks = ground (arith, text_eq_iff k j)

contains-discard_key :
    (k j : Text) (ks : List Text)
    → contains_text (discard_key k ks) j ≡ (not (text_eq j k) && contains_text ks j)
unfolding discard_key contains_text
contains-discard_key k j [] = ground arith
contains-discard_key k j (t ∷ ks) =
    ground (arith, text_eq_iff t j, text_eq_iff t k, text_eq_iff j k, contains-discard_key k j ks)

pub attempt_of-forget :
    (k b : Text) (ks : KeyState)
    → attempt_of b (forget k ks)
      ≡ (if text_eq (split_attempt k).0 b then (split_attempt k).1 + 1 else attempt_of b ks)
unfolding attempt_of forget
attempt_of-forget k b ks =
    ground (arith, lookup-insert (split_attempt k).0 b ((split_attempt k).1 + 1) ks.attempts)

seen-forget :
    (k j : Text) (ks : KeyState)
    → contains_text (forget k ks).seen j ≡ (not (text_eq j k) && contains_text ks.seen j)
unfolding forget
seen-forget k j ks = contains-discard_key k j ks.seen

-- The service's keys with the history of a run: the keys handed out, and those not yet forgotten.
pub record Ledger : Type 0 where
  pub keys : KeyState
  pub issued : List Text
  pub live : List Text

-- One call: an entry takes a key, an entry is refused as a duplicate, or a live key is forgotten.
pub data Step (l : Ledger) : Ledger → Type 0 where
  issue :
      (base key : Text) (ks : KeyState)
      → IsBase base
      → claim_key base l.keys ≡ (some key, ks)
      → Step l (record { keys = ks; issued = key ∷ l.issued; live = key ∷ l.live })
  refuse : (base : Text) → (claim_key base l.keys).0 ≡ none → Step l l
  close :
      (key : Text)
      → contains_text l.live key ≡ true
      → Step l (record l { keys = forget key l.keys; live = discard_key key l.live })

pub data Run (l : Ledger) : Ledger → Type 0 where
  start : Run l l
  next : {m n : Ledger} → Run l m → Step m n → Run l n

abbrev pub NoRepeat : List Text → Type 0
NoRepeat [] = Unit
NoRepeat (k ∷ ks) = (contains_text ks k ≡ false) × NoRepeat ks

abbrev base_of : Text → Text
base_of k = (split_attempt k).0

abbrev attempt_in : Text → ℕ
attempt_in k = (split_attempt k).1

record Known (ks : KeyState) (k : Text) : Type 0 where
  composed : compose_key (base_of k) (attempt_in k) ≡ k
  bounded : attempt_in k ≤ attempt_of (base_of k) ks
  held : attempt_in k ≡ attempt_of (base_of k) ks → contains_text ks.seen k ≡ true

record Current (ks : KeyState) (k : Text) : Type 0 where
  composed : compose_key (base_of k) (attempt_in k) ≡ k
  latest : attempt_in k ≡ attempt_of (base_of k) ks

pub record IsFresh (l : Ledger) : Type 0 where
  known : (k : Text) → contains_text l.issued k ≡ true → Known l.keys k
  current : (k : Text) → contains_text l.live k ≡ true → Current l.keys k
  unique : NoRepeat l.issued

claim_key-parts :
    (base key : Text) (ks ks' : KeyState)
    → claim_key base ks ≡ (some key, ks')
    → (key ≡ compose_key base (attempt_of base ks))
      × (contains_text ks.seen key ≡ false)
      × (ks' ≡ record ks { seen = add_key key ks.seen })
unfolding claim_key
claim_key-parts base key ks ks' e = ground arith

pub attempt_of-seen :
    (b : Text) (ks : KeyState) (s : List Text)
    → attempt_of b (record ks { seen = s }) ≡ attempt_of b ks
unfolding attempt_of
attempt_of-seen b ks s = refl

contains-cases :
    (key k : Text) (ks : List Text)
    → contains_text (key ∷ ks) k ≡ true
    → (key ≡ k) ⊎ (contains_text ks k ≡ true)
unfolding contains_text
contains-cases key k ks h = elim (Bool-cases (text_eq key k)) [
  | inl same ↦ inl ((text_eq_iff key k).0 same)
  | inr other ↦ inr (rw other at h)
]

discard-parts :
    (key k : Text) (ks : List Text)
    → contains_text (discard_key key ks) k ≡ true
    → (text_eq k key ≡ false) × (contains_text ks k ≡ true)
discard-parts key k ks h = ground (arith, contains-discard_key key k ks)

abbrev pub new_ledger : Ledger
new_ledger = record { keys = record { seen = []; attempts = [] }; issued = []; live = [] }
