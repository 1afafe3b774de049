-- ===== src/Services/World/Orders.antt =====
-- Actions that keep the book well-formed and every position that is being exited with an order,
-- whether they return or raise. One rule for each way to build an action.
use quant_execution.Base.{◌≡◌, Bool, true, false, if◌then◌else◌, Text, []}
use quant_execution.Domain.Decimal.{Decimal}
use quant_execution.Domain.Records.{Task, Position}
use quant_execution.Positions.{Book, open_position, remove, modify}
use quant_execution.Positions.Invariant.{
  IsWellFormed, open_position-IsWellFormed, remove-IsWellFormed, modify-IsWellFormed,
}
use quant_execution.Positions.Orders.{
  Ordered, Ordered-but, has_order, open_position-Ordered, remove-Ordered, modify-Ordered,
  modify-Ordered_same,
}
use quant_execution.Services.Keys.{KeyState}
use quant_execution.Services.World.{
  Call, Error, Result, ok, err, World, Exec, pure, raise, after, ◌>>=◌, gets, write, call,
  with_book, with_keys, record_price,
}

pub record IsSound (book : Book) : Type 0 where
  pub shape : IsWellFormed book
  pub orders : Ordered [] book

pub record KeepsSound {A : Type 0} (m : Exec A) : Type 0 where
  pub at : (w : World) → IsSound w.book → IsSound (m w).1.book

module _ {A : Type 0} where
  pub KeepsSound-pure : (a : A) → KeepsSound (pure a)
  KeepsSound-pure a = record { at = λ w h. h }

  pub KeepsSound-raise : (e : Error) → KeepsSound (raise {A = A} e)
  KeepsSound-raise e = record { at = λ w h. h }

  pub KeepsSound-gets : (f : World → A) → KeepsSound (gets f)
  KeepsSound-gets f = record { at = λ w h. h }

  pub KeepsSound-if :
      (b : Bool) (m n : Exec A) → KeepsSound m → KeepsSound n → KeepsSound (if b then m else n)
  KeepsSound-if true m n km kn = km
  KeepsSound-if false m n km kn = kn

module _ {A B : Type 0} where
  after-KeepsSound :
      (r : Result A) (f : A → Exec B) (w : World)
      → ((a : A) → KeepsSound (f a))
      → IsSound w.book
      → IsSound (after r f w).1.book
  after-KeepsSound (ok a) f w k h = (k a).at w h
  after-KeepsSound (err e) f w k h = h

  pub KeepsSound-bind :
      (m : Exec A) (f : A → Exec B)
      → KeepsSound m
      → ((a : A) → KeepsSound (f a))
      → KeepsSound (m >>= f)
  KeepsSound-bind m f km kf = record {
    at = λ w h. after-KeepsSound (m w).0 f (m w).1 kf (km.at w h);
  }

pub KeepsSound-write : (t : Task) → KeepsSound (write t)
KeepsSound-write t = record { at = λ w h. h }

pub KeepsSound-call : (c : Call) → KeepsSound (call c)
KeepsSound-call c = record { at = λ w h. h }

pub KeepsSound-with_keys : (f : KeyState → KeyState) → KeepsSound (with_keys f)
KeepsSound-with_keys f = record { at = λ w h. h }

KeepsSound-open : (p : Position) → has_order p ≡ true → KeepsSound (with_book (open_position p))
KeepsSound-open p gives = record {
  at = λ w h. record {
    shape = open_position-IsWellFormed p w.book h.shape;
    orders = open_position-Ordered p w.book gives h.orders;
  };
}

-- A write, and the opening of a position.
pub KeepsSound-write_open :
    (t : Task) (p : Position)
    → has_order p ≡ true
    → KeepsSound (write t >>= λ u. with_book (open_position p))
KeepsSound-write_open t p gives =
    KeepsSound-bind _ _ (KeepsSound-write t) (λ u. KeepsSound-open p gives)

pub KeepsSound-remove : (p : Position) → KeepsSound (with_book (remove p))
KeepsSound-remove p = record {
  at = λ w h. record {
    shape = remove-IsWellFormed p w.book h.shape;
    orders = remove-Ordered p [] w.book h.shape (Ordered-but p w.book h.orders);
  };
}

module _ (f : Position → Position) (p : Position)
    (keep : (q : Position) → ((f q).trade_id ≡ q.trade_id) × ((f q).symbol ≡ q.symbol)) where
  pub KeepsSound-modify :
      ((q : Position) → has_order (f q) ≡ true) → KeepsSound (with_book (modify f p))
  KeepsSound-modify gives = record {
    at = λ w h. record {
      shape = modify-IsWellFormed f keep p w.book h.shape;
      orders = modify-Ordered f p [] w.book gives (Ordered-but p w.book h.orders);
    };
  }

  pub KeepsSound-modify_same :
      ((q : Position) → has_order (f q) ≡ has_order q) → KeepsSound (with_book (modify f p))
  KeepsSound-modify_same same = record {
    at = λ w h. record {
      shape = modify-IsWellFormed f keep p w.book h.shape;
      orders = modify-Ordered_same f p w.book same h.orders;
    };
  }

pub KeepsSound-record_price :
    (symbol : Text) (price : Decimal) → KeepsSound (record_price symbol price)
unfolding record_price
KeepsSound-record_price symbol price = record { at = λ w h. h }

pub ruleset sound_rules = (
  KeepsSound-pure, KeepsSound-raise, KeepsSound-gets, KeepsSound-if, KeepsSound-bind,
  KeepsSound-write, KeepsSound-call, KeepsSound-with_keys, KeepsSound-remove,
)
