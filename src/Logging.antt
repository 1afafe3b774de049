-- ===== src/Logging.antt =====
-- `format_event` of src/quant_execution/logging.py: one line of an event and its fields. A value is
-- the text that `str` makes of it, or `None`.
pub mod Reader
use quant_execution.Base.{
  ℕ, Text, Bool, true, false, ◌||◌, ◌&&◌, Option, none, some, List, [], ◌∷◌, ◌++◌, if◌then◌else◌,
  leb, nat_eq,
}

-- `str.isspace` of an ASCII character.
abbrev pub is_space : ℕ → Bool
is_space c = nat_eq c 32 || ((leb 9 c && leb c 13) || (leb 28 c && leb c 31))

abbrev pub needs_quotes : Text → Bool
needs_quotes [] = false
needs_quotes (c ∷ s) = (is_space c || nat_eq c b'=') || needs_quotes s

-- `text.replace('"', '\\"')`
unfoldable pub escaped : Text → Text
escaped [] = []
escaped (c ∷ s) = if nat_eq c 34 then 92 ∷ 34 ∷ escaped s else c ∷ escaped s

-- `_format_value`
unfoldable pub format_value : Text → Text
unfolding escaped
format_value text = if needs_quotes text then 34 ∷ (escaped text ++ 34 ∷ []) else text

abbrev pub part : Text × Text → Text
part (key, value) = key ++ b'=' ∷ format_value value

-- The fields that are not `None`.
abbrev pub populated : List (Text × Option Text) → List (Text × Text)
populated [] = []
populated ((key, none) ∷ fields) = populated fields
populated ((key, some value) ∷ fields) = (key, value) ∷ populated fields

abbrev pub parts : List (Text × Text) → List Text
parts [] = []
parts (f ∷ fields) = part f ∷ parts fields

-- `" ".join(parts)`
unfoldable pub spaced : List Text → Text
spaced [] = []
spaced (p ∷ []) = p
spaced (p ∷ q ∷ ps) = p ++ 32 ∷ spaced (q ∷ ps)

-- `format_event`
unfoldable pub format_event : Text → List (Text × Option Text) → Text
format_event event fields = spaced (event ∷ parts (populated fields))
