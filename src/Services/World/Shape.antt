-- ===== src/Services/World/Shape.antt =====
-- Actions that keep the book well-formed, whether they return or raise. One rule for each way to
-- build an action, and one for each change of the book.
use quant_execution.Base.{◌≡◌, Bool, true, false, if◌then◌else◌}
use quant_execution.Domain.Records.{Task, Position}
use quant_execution.Positions.{open_position, remove, modify, mark_open, release_exit}
use quant_execution.Positions.Invariant.{
  IsWellFormed, open_position-IsWellFormed, remove-IsWellFormed, modify-IsWellFormed,
}
use quant_execution.Positions.Flips.{flips-IsWellFormed}
use quant_execution.Services.Keys.{KeyState}
use quant_execution.Services.World.{
  Call, Error, Result, ok, err, World, Exec, pure, raise, after, ◌>>=◌, gets, write, call,
  with_book, with_keys, record_price,
}
use quant_execution.Base.{Text}
use quant_execution.Domain.Decimal.{Decimal}

pub record Keeps {A : Type 0} (m : Exec A) : Type 0 where
  pub at : (w : World) → IsWellFormed w.book → IsWellFormed (m w).1.book

module _ {A : Type 0} where
  pub Keeps-pure : (a : A) → Keeps (pure a)
  Keeps-pure a = record { at = λ w h. h }

  pub Keeps-raise : (e : Error) → Keeps (raise {A = A} e)
  Keeps-raise e = record { at = λ w h. h }

  pub Keeps-gets : (f : World → A) → Keeps (gets f)
  Keeps-gets f = record { at = λ w h. h }

  pub Keeps-if : (b : Bool) (m n : Exec A) → Keeps m → Keeps n → Keeps (if b then m else n)
  Keeps-if true m n km kn = km
  Keeps-if false m n km kn = kn

module _ {A B : Type 0} where
  after-Keeps :
      (r : Result A) (f : A → Exec B) (w : World)
      → ((a : A) → Keeps (f a))
      → IsWellFormed w.book
      → IsWellFormed (after r f w).1.book
  after-Keeps (ok a) f w k h = (k a).at w h
  after-Keeps (err e) f w k h = h

  pub Keeps-bind :
      (m : Exec A) (f : A → Exec B) → Keeps m → ((a : A) → Keeps (f a)) → Keeps (m >>= f)
  Keeps-bind m f km kf = record { at = λ w h. after-Keeps (m w).0 f (m w).1 kf (km.at w h) }

pub Keeps-write : (t : Task) → Keeps (write t)
Keeps-write t = record { at = λ w h. h }

pub Keeps-call : (c : Call) → Keeps (call c)
Keeps-call c = record { at = λ w h. h }

pub Keeps-with_keys : (f : KeyState → KeyState) → Keeps (with_keys f)
Keeps-with_keys f = record { at = λ w h. h }

pub Keeps-open : (p : Position) → Keeps (with_book (open_position p))
Keeps-open p = record { at = λ w h. open_position-IsWellFormed p w.book h }

pub Keeps-remove : (p : Position) → Keeps (with_book (remove p))
Keeps-remove p = record { at = λ w h. remove-IsWellFormed p w.book h }

pub Keeps-modify :
    (f : Position → Position) (p : Position)
    → ((q : Position) → ((f q).trade_id ≡ q.trade_id) × ((f q).symbol ≡ q.symbol))
    → Keeps (with_book (modify f p))
Keeps-modify f p same = record { at = λ w h. modify-IsWellFormed f same p w.book h }

pub Keeps-mark_open : (p : Position) → Keeps (with_book (mark_open p))
Keeps-mark_open p = record { at = λ w h. (flips-IsWellFormed w.book h).2 p }

pub Keeps-release_exit : (p : Position) → Keeps (with_book (release_exit p))
Keeps-release_exit p = record { at = λ w h. (flips-IsWellFormed w.book h).3 p }

pub Keeps-record_price : (symbol : Text) (price : Decimal) → Keeps (record_price symbol price)
unfolding record_price
Keeps-record_price symbol price = record { at = λ w h. h }

pub ruleset shape_rules = (
  Keeps-pure, Keeps-raise, Keeps-gets, Keeps-if, Keeps-bind, Keeps-write, Keeps-call,
  Keeps-with_keys, Keeps-open, Keeps-remove, Keeps-mark_open, Keeps-release_exit,
)
