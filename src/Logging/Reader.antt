-- ===== src/Logging/Reader.antt =====
-- A reader of the lines of src/quant_execution/logging.py, and what it gets back. It is no part of
-- the program: it takes a field's key up to `=`, and its value up to a space or, after a quote, up to
-- the next quote that no backslash precedes.
use quant_execution.Base.{
  ℕ, zero, suc, ◌≤◌, Text, ◌≡◌, refl, sym, ap, ◌∙◌, Bool, true, false, not, Option, List, [], ◌∷◌,
  ◌++◌, if◌then◌else◌, nat_eq, nat_eq_iff, inl, inr, Bool-cases, All, arith, length,
}
use mathlib.Core.List.{append_assoc, append-nil}
use quant_execution.Logging.{
  is_space, needs_quotes, escaped, format_value, part, populated, parts, spaced, format_event,
}

abbrev front : ℕ → Text × Text → Text × Text
front c (s, rest) = (c ∷ s, rest)

abbrev behind : Text → Text
behind [] = []
behind (c ∷ s) = s

-- Up to a character, which is dropped.
unfoldable pub read_to : (ℕ → Bool) → Text → Text × Text
read_to stop [] = ([], [])
read_to stop (c ∷ s) = let rest = read_to stop s in if stop c then ([], s) else front c rest

-- Up to the closing quote; `slash` tells that a backslash came before.
unfoldable pub read_quoted : Bool → Text → Text × Text
read_quoted slash [] = ([], [])
read_quoted true (c ∷ s) = front c (read_quoted false s)
read_quoted false (c ∷ s) =
    let next = read_quoted true s in
    let rest = read_quoted false s in
    if nat_eq c 92 then next else if nat_eq c 34 then ([], behind s) else front c rest

unfoldable pub read_value : Text → Text × Text
read_value [] = ([], [])
read_value (c ∷ s) = if nat_eq c 34 then read_quoted false s else read_to is_space (c ∷ s)

unfoldable pub read_fields : ℕ → Text → List (Text × Text)
read_fields zero s = []
read_fields (suc n) [] = []
read_fields (suc n) (c ∷ s) =
    let key = read_to (λ d. nat_eq d b'=') (c ∷ s) in
    let value = read_value key.1 in (key.0, value.0) ∷ read_fields n value.1

abbrev pub read_line : ℕ → Text → Text × List (Text × Text)
read_line n s = let event = read_to is_space s in (event.0, read_fields n event.1)

-- A text without any character of a kind.
abbrev pub Without : (ℕ → Bool) → Text → Type 0
Without p s = All (λ c. p c ≡ false) s

abbrev pub not_opened : Text → Bool
not_opened [] = true
not_opened (c ∷ s) = not (nat_eq c 34)

-- A key without `=`, and a value that has no backslash and does not open with a quote.
abbrev pub Plain : Text × Text → Type 0
Plain (key, value) =
    Without (λ d. nat_eq d b'=') key × Without (λ d. nat_eq d 92) value × (not_opened value ≡ true)

-- What follows a part in a line.
abbrev pub rest_of : List Text → Text
rest_of [] = []
rest_of (p ∷ ps) = 32 ∷ spaced (p ∷ ps)

spaced_cons : (p : Text) (ps : List Text) → spaced (p ∷ ps) ≡ p ++ rest_of ps
unfolding spaced
spaced_cons p [] = sym (append-nil p)
spaced_cons p (q ∷ ps) = refl

read_to-space :
    (s : Text) (ps : List Text)
    → Without is_space s
    → read_to is_space (s ++ rest_of ps) ≡ (s, behind (rest_of ps))
unfolding read_to
read_to-space [] [] h = refl
read_to-space [] (p ∷ ps) h = refl
read_to-space (c ∷ s) ps h = rw h.0 (ap (front c) (read_to-space s ps h.1))

read_to-key :
    (s rest : Text)
    → Without (λ d. nat_eq d b'=') s
    → read_to (λ d. nat_eq d b'=') (s ++ b'=' ∷ rest) ≡ (s, rest)
unfolding read_to
read_to-key [] rest h = refl
read_to-key (c ∷ s) rest h = rw h.0 (ap (front c) (read_to-key s rest h.1))

read_quoted-escaped :
    (s : Text) (ps : List Text)
    → Without (λ d. nat_eq d 92) s
    → read_quoted false (escaped s ++ 34 ∷ rest_of ps) ≡ (s, behind (rest_of ps))
unfolding read_quoted escaped
read_quoted-escaped [] ps h = refl
read_quoted-escaped (c ∷ s) ps h = elim (Bool-cases (nat_eq c 34)) [
  | inl quote ↦
      let is_quote : c ≡ 34 = (nat_eq_iff c 34).0 quote in
      rw quote (
        ap (front 34) (read_quoted-escaped s ps h.1)
        ∙ ap (λ d. (d ∷ s, behind (rest_of ps))) (sym is_quote))
  | inr other ↦ rw (other, h.0) (rw other (ap (front c) (read_quoted-escaped s ps h.1)))
]

plain_spaces : (s : Text) → needs_quotes s ≡ false → Without is_space s
plain_spaces [] h = tt
plain_spaces (c ∷ s) h = (ground (arith, h), plain_spaces s (ground (arith, h)))

read_value-plain :
    (s : Text) (ps : List Text)
    → needs_quotes s ≡ false
    → not_opened s ≡ true
    → read_value (s ++ rest_of ps) ≡ (s, behind (rest_of ps))
unfolding read_value
read_value-plain [] [] h k = refl
read_value-plain [] (p ∷ ps) h k = unfold read_to in refl
read_value-plain (c ∷ s) ps h k =
    let unquoted : nat_eq c 34 ≡ false = ground (arith, k) in
    rw unquoted (read_to-space (c ∷ s) ps (plain_spaces (c ∷ s) h))

-- The value of a field is read back, and the reader stands at the next part.
read_value-format :
    (value : Text) (ps : List Text)
    → Without (λ d. nat_eq d 92) value
    → not_opened value ≡ true
    → read_value (format_value value ++ rest_of ps) ≡ (value, behind (rest_of ps))
unfolding format_value read_value
read_value-format value ps clean closed = elim (Bool-cases (needs_quotes value)) [
  | inl quoted ↦ rw quoted (
      ap (read_quoted false) (append_assoc (escaped value) (34 ∷ []) (rest_of ps))
      ∙ read_quoted-escaped value ps clean)
  | inr plain ↦ rw plain (read_value-plain value ps plain closed)
]

read_part :
    (key value : Text) (ps : List Text)
    → Plain (key, value)
    → (key_rest : Text) × (read_to (λ d. nat_eq d b'=') (part (key, value) ++ rest_of ps)
        ≡ (key, key_rest))
      × (read_value key_rest ≡ (value, behind (rest_of ps)))
read_part key value ps plain = (
  format_value value ++ rest_of ps,
  ap (read_to (λ d. nat_eq d b'=')) (append_assoc key (b'=' ∷ format_value value) (rest_of ps))
      ∙ read_to-key key (format_value value ++ rest_of ps) plain.0,
  read_value-format value ps plain.1 plain.2,
)

-- A line that starts with a part is not empty.
read_fields-nonempty :
    (n : ℕ) (key value : Text) (ps : List Text)
    → let s = part (key, value) ++ rest_of ps in
      read_fields (suc n) s ≡ (
        let k = read_to (λ d. nat_eq d b'=') s in
        let v = read_value k.1 in (k.0, v.0) ∷ read_fields n v.1)
unfolding read_fields
read_fields-nonempty n [] value ps = refl
read_fields-nonempty n (c ∷ key) value ps = refl

read_fields-parts :
    (n : ℕ) (fields : List (Text × Text))
    → length fields ≤ n
    → All Plain fields
    → read_fields n (behind (rest_of (parts fields))) ≡ fields
unfolding read_fields
read_fields-parts zero [] h k = refl
read_fields-parts (suc n) [] h k = refl
read_fields-parts zero (f ∷ fields) h k = absurd (omega (arith, h))
read_fields-parts (suc n) ((key, value) ∷ fields) h k =
    let (rest, key_read, value_read) = read_part key value (parts fields) k.0 in
    ap (read_fields (suc n)) (spaced_cons (part (key, value)) (parts fields))
    ∙ read_fields-nonempty n key value (parts fields)
    ∙ ap (λ r. let v = read_value r.1 in (r.0, v.0) ∷ read_fields n v.1) key_read
    ∙ ap (λ v. (key, v.0) ∷ read_fields n v.1) value_read
    ∙ ap (λ t. (key, value) ∷ t) (read_fields-parts n fields (omega (arith, h)) k.1)

-- A line gives back its event and the fields that are not `None`, when the event has no space, no
-- key has `=`, and no value has a backslash or opens with a quote.
pub read_line-format_event :
    (event : Text) (fields : List (Text × Option Text)) (n : ℕ)
    → Without is_space event
    → All Plain (populated fields)
    → length (populated fields) ≤ n
    → read_line n (format_event event fields) ≡ (event, populated fields)
unfolding format_event
read_line-format_event event fields n clean plain enough =
    ap (λ s. read_line n s) (spaced_cons event (parts (populated fields)))
    ∙ ap (λ r. (r.0, read_fields n r.1)) (read_to-space event (parts (populated fields)) clean)
    ∙ ap (λ t. (event, t)) (read_fields-parts n (populated fields) enough plain)
