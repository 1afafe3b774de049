-- ===== src/Api/Query.antt =====
-- The query parameters that src/quant_execution/api/routes/trades.py and pnl.py read.
pub mod Valid
use quant_execution.Api.{Library, Response, error_response}
use quant_execution.Base.{
  ℕ, zero, suc, ◌-◌, ◌≤◌, Text, ◌≡◌, refl, Bool, true, false, ◌&&◌, ◌||◌, Option, none, some, List,
  [], ◌∷◌, ◌++◌, arith, codes, if◌then◌else◌, ltb, leb, text_eq, text_keys, contains_text, map, inl,
  inr, ◌⊎◌, Bool-cases, Option-cases, upper,
}
use quant_execution.Base.Dict.{Dict, lookup}
use quant_execution.Base.Int.{ℤ, pos, negsuc, ltb_ℤ}
use quant_execution.Domain.Enums.{
  ExecutionMode, paper, live, mode_value, is_paper_mode, TradeStatus, status_value, new, cash_held,
  submitted, partially_filled, filled, rejected, insufficient_funds, failed, exit_submitted,
  exit_partially_filled, closed, exit_failed,
}
use quant_execution.Services.CloseTime.{parse_int}

-- `request.query`
abbrev pub Params : Type 0
Params = Dict Text Text

-- What a route has read, or the answer that it returns early.
pub data Checked (A : Type 0) : Type 0 where
  refused : Response → Checked A
  accepted : A → Checked A

infixl 5 ◌>>=◌
abbrev pub ◌>>=◌ : {A B : Type 0} → Checked A → (A → Checked B) → Checked B
refused r >>= f = refused r
accepted a >>= f = f a

abbrev nonempty : Option Text → Option Text
nonempty none = none
nonempty (some []) = none
nonempty (some (c ∷ s)) = some (c ∷ s)

-- `params.get(name) or None`
unfoldable pub param : Text → Params → Option Text
param name params = nonempty (lookup name params)

-- `ExecutionMode(raw)`; `none` where it raises `ValueError`.
unfoldable pub read_mode : Text → Option ExecutionMode
read_mode raw =
    if text_eq raw (mode_value paper)
    then some paper
    else if text_eq raw (mode_value live)
    then some live
    else none

abbrev default_limit : ℕ
default_limit = 100

abbrev pub max_limit : ℕ
max_limit = 500

abbrev pub statuses : List TradeStatus
statuses =
    new ∷ cash_held ∷ submitted ∷ partially_filled ∷ filled ∷ rejected ∷ insufficient_funds ∷ failed
    ∷ exit_submitted ∷ exit_partially_filled ∷ closed ∷ exit_failed ∷ []

-- `_VALID_STATUSES`
unfoldable pub valid_statuses : List Text
valid_statuses = map status_value statuses

abbrev mode_filter : Library → Text → Option ExecutionMode → Checked (Option Bool)
mode_filter lib raw none = refused (
    error_response 400 (codes "invalid_mode")
      (codes "unknown mode: " ++ (lib.quoted raw ++ codes " (use paper|live)")))
mode_filter lib raw (some mode) = accepted (some (is_paper_mode mode))

abbrev mode_given : Library → Option Text → Checked (Option Bool)
mode_given lib none = accepted none
mode_given lib (some raw) = mode_filter lib raw (read_mode raw)

-- The block of both list routes on `mode`.
unfoldable pub check_mode : Library → Params → Checked (Option Bool)
check_mode lib params = mode_given lib (param (codes "mode") params)

abbrev status_given : Library → Option Text → Checked (Option Text)
status_given lib none = accepted none
status_given lib (some s) =
    if contains_text valid_statuses s
    then accepted (some s)
    else refused
        (error_response 400 (codes "invalid_status") (codes "unknown status: " ++ lib.quoted s))

unfoldable pub check_status : Library → Params → Checked (Option Text)
check_status lib params = status_given lib (param (codes "status") params)

abbrev uppercase : Option Text → Option Text
uppercase none = none
uppercase (some s) = some (upper s)

unfoldable pub symbol_filter : Params → Option Text
symbol_filter params = uppercase (param (codes "symbol") params)

-- `int(params.get(name) or default)`
abbrev int_or : ℕ → Option Text → Option ℤ
int_or default none = some (pos default)
int_or default (some raw) = parse_int raw

abbrev invalid_pagination : Text → Response
invalid_pagination message = error_response 400 (codes "invalid_pagination") message

-- `min(limit, _MAX_LIMIT)`
abbrev capped : ℕ → ℕ
capped limit = if leb limit max_limit then limit else max_limit

abbrev bounded : ℤ → ℤ → Checked (ℕ × ℕ)
bounded (pos (suc limit)) (pos offset) = accepted (capped (suc limit), offset)
bounded _ _ = refused (invalid_pagination (codes "limit must be >= 1 and offset >= 0"))

abbrev pagination : Option ℤ → Option ℤ → Checked (ℕ × ℕ)
pagination (some limit) (some offset) = bounded limit offset
pagination _ _ = refused (invalid_pagination (codes "limit and offset must be integers"))

-- The block of both list routes on `limit` and `offset`.
unfoldable pub check_pagination : Params → Checked (ℕ × ℕ)
check_pagination params =
    pagination (int_or default_limit (param (codes "limit") params))
      (int_or 0 (param (codes "offset") params))

capped_bounds : (n : ℕ) → (1 ≤ capped (suc n)) × (capped (suc n) ≤ 500)
capped_bounds n = ground arith

bounded_lem :
    (l o : ℤ) (limit offset : ℕ)
    → bounded l o ≡ accepted (limit, offset)
    → (1 ≤ limit) × (limit ≤ 500)
bounded_lem (pos (suc n)) (pos o) limit offset h = ground (arith, capped_bounds n)
bounded_lem _ _ limit offset h = ground arith

pagination_lem :
    (l o : Option ℤ) (limit offset : ℕ)
    → pagination l o ≡ accepted (limit, offset)
    → (1 ≤ limit) × (limit ≤ 500)
pagination_lem (some l) (some o) limit offset h = bounded_lem l o limit offset h
pagination_lem _ _ limit offset h = ground arith

-- Whatever limit and offset a request asks for, the limit that is used is from 1 to 500.
pub check_pagination-bounds :
    (params : Params) (limit offset : ℕ)
    → check_pagination params ≡ accepted (limit, offset)
    → (1 ≤ limit) × (limit ≤ 500)
unfolding check_pagination
check_pagination-bounds params limit offset h =
    pagination_lem (int_or default_limit (param (codes "limit") params))
      (int_or 0 (param (codes "offset") params)) limit offset h
