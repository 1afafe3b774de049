-- ===== src/Services/Keys/Apart.antt =====
-- How the keys of entries end, and those of exits: `compose_key` and `build_idempotency_key` of
-- src/quant_execution/domain/services.py, and the key of `_submit_exit`.
use mathlib.Core.List.{append_assoc}
use quant_execution.Base.{
  ℕ, zero, suc, ◌/◌, Text, codes, ◌≡◌, ◌≢◌, refl, sym, true, [], ◌∷◌, ◌++◌, arith, leb,
}
use quant_execution.Domain.Enums.{ExecutionMode}
use quant_execution.Domain.Records.{Tick, WatchlistEntry}
use quant_execution.Services.Keys.{
  decimal, all_digits, isdigit, compose_key, or_now, day_micros, two_digits, isoformat, civil,
  build_idempotency_key,
}
use quant_execution.Services.Keys.Attempts.{compose_key-suc}
use quant_execution.Services.Keys.Digits.{isdigit-decimal}

unfoldable last : Text → ℕ
last [] = 0
last (c ∷ []) = c
last (c ∷ d ∷ s) = last (d ∷ s)

last-append : (s : Text) (c : ℕ) (t : Text) → last (s ++ c ∷ t) ≡ last (c ∷ t)
unfolding last
last-append [] c t = refl
last-append (d ∷ []) c t = refl
last-append (d ∷ e ∷ s) c t = last-append (e ∷ s) c t

last-digits : (c : ℕ) (t : Text) → all_digits (c ∷ t) ≡ true → leb (last (c ∷ t)) 57 ≡ true
unfolding last all_digits
last-digits c [] h = ground (arith, h)
last-digits c (d ∷ t) h = last-digits d t (ground (arith, h))

-- A text that ends in a number ends in a digit.
last-isdigit : (s t : Text) → isdigit t ≡ true → leb (last (s ++ t)) 57 ≡ true
last-isdigit s [] h = unfold isdigit in ground (arith, h)
last-isdigit s (c ∷ t) h = rw (last-append s c t) (last-digits c t (unfold isdigit in h))

last-day : (s : Text) (d : ℕ) → leb (last (s ++ b'-' ∷ two_digits d)) 57 ≡ true
unfolding last
last-day s d = rw (last-append s b'-' (two_digits d)) (ground arith)

last-base :
    (mode : ExecutionMode) (entry : WatchlistEntry) (tick : Tick) (now : ℕ)
    → leb (last (build_idempotency_key mode entry tick now)) 57 ≡ true
unfolding build_idempotency_key isoformat
last-base mode entry tick now =
    let day = civil (or_now tick.ts now / day_micros) in rw (← append_assoc) (last-day _ day.2)

last-compose_key :
    (base : Text) (attempt : ℕ)
    → leb (last base) 57 ≡ true
    → leb (last (compose_key base attempt)) 57 ≡ true
last-compose_key base zero h = unfold compose_key in h
last-compose_key base (suc n) h =
    rw (compose_key-suc base n, sym (append_assoc base (b':' ∷ b'r' ∷ []) (decimal (suc n))))
      (last-isdigit (base ++ b':' ∷ b'r' ∷ []) (decimal (suc n)) (isdigit-decimal (suc n)))

-- No entry has the key of an exit.
pub exit_suffix_apart :
    (key : Text) (mode : ExecutionMode) (entry : WatchlistEntry) (tick : Tick) (now attempt : ℕ)
    → key ++ codes ":exit" ≢ compose_key (build_idempotency_key mode entry tick now) attempt
unfolding last
exit_suffix_apart key mode entry tick now attempt same =
    let digit : leb (last (key ++ codes ":exit")) 57 ≡ true =
      rw same (last-compose_key _ attempt (last-base mode entry tick now)) in
    let letter : last (key ++ codes ":exit") ≡ b't' = last-append key b':' (codes "exit") in
    ground (arith, digit, letter)
