-- ===== src/Services/World/Stays.antt =====
-- What an action leaves alone: a view of the state that is the same after it, whether it returned
-- or raised. One rule for each way to build an action.
use quant_execution.Base.{◌≡◌, refl, ◌∙◌, Bool, true, false, if◌then◌else◌}
use quant_execution.Domain.Records.{Task}
use quant_execution.Positions.{Book}
use quant_execution.Services.Keys.{KeyState}
use quant_execution.Services.World.{
  Call, Error, Result, ok, err, World, Exec, pure, raise, after, ◌>>=◌, gets, write, call,
  with_book, with_keys,
}

pub record Stays {X A : Type 0} (view : World → X) (m : Exec A) : Type 0 where
  pub at : (w : World) → view (m w).1 ≡ view w

module _ {X A : Type 0} {view : World → X} where
  pub Stays-pure : (a : A) → Stays view (pure a)
  Stays-pure a = record { at = λ w. refl }

  pub Stays-raise : (e : Error) → Stays view (raise {A = A} e)
  Stays-raise e = record { at = λ w. refl }

  pub Stays-gets : (f : World → A) → Stays view (gets f)
  Stays-gets f = record { at = λ w. refl }

  pub Stays-if :
      (b : Bool) (m n : Exec A) → Stays view m → Stays view n → Stays view (if b then m else n)
  Stays-if true m n km kn = km
  Stays-if false m n km kn = kn

module _ {X A B : Type 0} {view : World → X} where
  after-Stays :
      (r : Result A) (f : A → Exec B) (w : World)
      → ((a : A) → Stays view (f a))
      → view (after r f w).1 ≡ view w
  after-Stays (ok a) f w k = (k a).at w
  after-Stays (err e) f w k = refl

  pub Stays-bind :
      (m : Exec A) (f : A → Exec B)
      → Stays view m
      → ((a : A) → Stays view (f a))
      → Stays view (m >>= f)
  Stays-bind m f km kf = record { at = λ w. after-Stays (m w).0 f (m w).1 kf ∙ km.at w }

pub ruleset stays_rules = (Stays-pure, Stays-raise, Stays-gets, Stays-if, Stays-bind)

-- The keys are left alone by writes, calls and changes of the book; the book by writes, calls and
-- changes of the keys.
abbrev pub keys_view : World → KeyState
keys_view w = w.keys

abbrev pub book_view : World → Book
book_view w = w.book

pub keys-write : (t : Task) → Stays keys_view (write t)
keys-write t = record { at = λ w. refl }

pub keys-call : (c : Call) → Stays keys_view (call c)
keys-call c = record { at = λ w. refl }

pub keys-with_book : (f : Book → Book) → Stays keys_view (with_book f)
keys-with_book f = record { at = λ w. refl }

pub book-write : (t : Task) → Stays book_view (write t)
book-write t = record { at = λ w. refl }

pub book-call : (c : Call) → Stays book_view (call c)
book-call c = record { at = λ w. refl }

pub book-with_keys : (f : KeyState → KeyState) → Stays book_view (with_keys f)
book-with_keys f = record { at = λ w. refl }

pub ruleset keys_rules = (stays_rules, keys-write, keys-call, keys-with_book)
