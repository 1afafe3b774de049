-- ===== src/Api/Query/Valid.antt =====
-- Which query parameters the routes of src/quant_execution/api accept.
use quant_execution.Api.{Library}
use quant_execution.Api.Query.{
  Params, Checked, ◌>>=◌, refused, accepted, param, read_mode, statuses, valid_statuses,
  mode_filter, mode_given, check_mode, status_given, check_status, int_or, default_limit, bounded,
  pagination, check_pagination,
}
use quant_execution.Base.{
  ℕ, suc, Text, ◌≡◌, refl, sym, subst, true, false, Option, none, some, List, [], ◌∷◌, arith, codes,
  text_eq, text_eq_iff, contains_text, map, inl, inr, Bool-cases,
}
use quant_execution.Base.Int.{ℤ, pos, negsuc}
use quant_execution.Domain.Enums.{
  ExecutionMode, paper, live, mode_value, TradeStatus, status_value, new, cash_held, submitted,
  partially_filled, filled, rejected, insufficient_funds, failed, exit_submitted,
  exit_partially_filled, closed, exit_failed,
}

-- A value that is the text of an execution mode, of a trade status; a limit from 1 and an offset.
abbrev pub ModeText : Option Text → Type 0
ModeText none = Unit
ModeText (some s) = (m : ExecutionMode) × (s ≡ mode_value m)

abbrev pub StatusText : Option Text → Type 0
StatusText none = Unit
StatusText (some s) = (st : TradeStatus) × (s ≡ status_value st)

abbrev pub PageText : Option Text → Option Text → Type 0
PageText limit offset =
    (n : ℕ) × (m : ℕ) × (int_or default_limit limit ≡ some (pos (suc n)))
    × (int_or 0 offset ≡ some (pos m))

-- A check accepts what is valid and answers 400 to anything else.
abbrev pub Decides : {A : Type 0} → Checked A → Type 0 → Type 0
Decides (accepted a) P = P
Decides (refused r) P = (r.status ≡ 400) × (¬ P)

also : {A : Type 0} (P Q : Type 0) (c : Checked A) → P → Decides c Q → Decides c (P × Q)
also P Q (accepted a) p q = (p, q)
also P Q (refused r) p q = (q.0, λ both. q.1 both.1)

-- Two checks, one after the other.
pub bind-Decides :
    {A B : Type 0} (P Q : Type 0) (c : Checked A) (f : A → Checked B)
    → Decides c P
    → ((a : A) → Decides (f a) Q)
    → Decides (c >>= f) (P × Q)
bind-Decides P Q (accepted a) f p q = also P Q (f a) p (q a)
bind-Decides P Q (refused r) f p q = (p.0, λ both. p.1 both.0)

pub accept-Decides :
    {A B : Type 0} (P : Type 0) (c : Checked A) (f : A → B)
    → Decides c P
    → Decides (c >>= λ a. accepted (f a)) P
accept-Decides P (accepted a) f p = p
accept-Decides P (refused r) f p = p

no_mode :
    (raw : Text)
    → text_eq raw (mode_value paper) ≡ false
    → text_eq raw (mode_value live) ≡ false
    → ¬ ModeText (some raw)
no_mode raw p l (paper, e) = cc ((text_eq_iff raw (mode_value paper)).1 e)
no_mode raw p l (live, e) = cc ((text_eq_iff raw (mode_value live)).1 e)

mode_filter-Decides :
    (lib : Library) (raw : Text)
    → Decides (mode_filter lib raw (read_mode raw)) (ModeText (some raw))
unfolding read_mode
mode_filter-Decides lib raw = elim (Bool-cases (text_eq raw (mode_value paper))) [
  | inl yes_paper ↦ rw yes_paper (paper, (text_eq_iff raw (mode_value paper)).0 yes_paper)
  | inr no_paper ↦ elim (Bool-cases (text_eq raw (mode_value live))) [
    | inl yes_live ↦ rw (no_paper, yes_live) (live, (text_eq_iff raw (mode_value live)).0 yes_live)
    | inr no_live ↦ rw (no_paper, no_live) (refl, no_mode raw no_paper no_live)
  ]
]

mode_given-Decides :
    (lib : Library) (given : Option Text) → Decides (mode_given lib given) (ModeText given)
mode_given-Decides lib none = tt
mode_given-Decides lib (some raw) = mode_filter-Decides lib raw

contains-status :
    (sts : List TradeStatus) (s : Text)
    → contains_text (map status_value sts) s ≡ true
    → (st : TradeStatus) × (s ≡ status_value st)
unfolding contains_text
contains-status [] s h = cc
contains-status (st ∷ sts) s h = elim (Bool-cases (text_eq (status_value st) s)) [
  | inl here ↦ (st, sym ((text_eq_iff (status_value st) s).0 here))
  | inr other ↦ contains-status sts s (rw other at h)
]

status_value-valid : (st : TradeStatus) → contains_text valid_statuses (status_value st) ≡ true
unfolding contains_text text_eq valid_statuses status_value
status_value-valid new = refl
status_value-valid cash_held = refl
status_value-valid submitted = refl
status_value-valid partially_filled = refl
status_value-valid filled = refl
status_value-valid rejected = refl
status_value-valid insufficient_funds = refl
status_value-valid failed = refl
status_value-valid exit_submitted = refl
status_value-valid exit_partially_filled = refl
status_value-valid closed = refl
status_value-valid exit_failed = refl

no_status : (s : Text) → contains_text valid_statuses s ≡ false → ¬ StatusText (some s)
no_status s gone (st, e) =
    cc (subst (λ x. contains_text valid_statuses x ≡ false) e gone, status_value-valid st)

status_given-Decides :
    (lib : Library) (given : Option Text) → Decides (status_given lib given) (StatusText given)
unfolding valid_statuses
status_given-Decides lib none = tt
status_given-Decides lib (some s) = elim (Bool-cases (contains_text valid_statuses s)) [
  | inl here ↦ rw here (contains-status statuses s here)
  | inr other ↦ rw other (refl, no_status s other)
]

bounded-Decides :
    (l o : ℤ)
    → Decides
        (bounded l o)
        ((n : ℕ) × (m : ℕ) × (some l ≡ some (pos (suc n))) × (some o ≡ some (pos m)))
bounded-Decides (pos (suc n)) (pos m) = (n, m, refl, refl)
bounded-Decides (pos ℕ.zero) o = (refl, λ p. ground arith)
bounded-Decides (negsuc n) o = (refl, λ p. ground arith)
bounded-Decides (pos (suc n)) (negsuc m) = (refl, λ p. ground arith)

pagination-Decides :
    (l o : Option ℤ)
    → Decides (pagination l o) ((n : ℕ) × (m : ℕ) × (l ≡ some (pos (suc n))) × (o ≡ some (pos m)))
pagination-Decides (some l) (some o) = bounded-Decides l o
pagination-Decides none o = (refl, λ p. ground arith)
pagination-Decides (some l) none = (refl, λ p. ground arith)

pub check_mode-Decides :
    (lib : Library) (params : Params)
    → Decides (check_mode lib params) (ModeText (param (codes "mode") params))
unfolding check_mode
check_mode-Decides lib params = mode_given-Decides lib (param (codes "mode") params)

pub check_status-Decides :
    (lib : Library) (params : Params)
    → Decides (check_status lib params) (StatusText (param (codes "status") params))
unfolding check_status
check_status-Decides lib params = status_given-Decides lib (param (codes "status") params)

pub check_pagination-Decides :
    (params : Params)
    → Decides
        (check_pagination params)
        (PageText (param (codes "limit") params) (param (codes "offset") params))
unfolding check_pagination
check_pagination-Decides params =
    pagination-Decides (int_or default_limit (param (codes "limit") params))
      (int_or 0 (param (codes "offset") params))
