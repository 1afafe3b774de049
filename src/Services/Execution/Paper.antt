-- ===== src/Services/Execution/Paper.antt =====
-- The handlers of src/quant_execution/domain/services.py in paper mode: actions over a book of paper
-- positions. One rule for each way to build an action.
pub mod Handlers
use quant_execution.Base.{
  ℕ, Text, ◌≡◌, refl, sym, subst, ◌∙◌, Bool, true, false, ◌&&◌, not, Option, none, some, List, [],
  ◌∷◌, ◌++◌, arith, if◌then◌else◌, inl, inr, Bool-cases, Option-cases, All, length, text_keys,
  nat_keys,
}
use quant_execution.Base.Dict.{lookup, insert, erase, lookup-All, insert-All, erase-All}
use quant_execution.Domain.Decimal.{Decimal}
use quant_execution.Domain.Enums.{ExitReason, target_price, is_paper_mode, is_opened, exiting}
use quant_execution.Domain.Records.{Tick, WatchlistEntry, MessageMeta, Position, Task}
use quant_execution.Positions.{
  Bucket, Book, bucket_of, open_position, store_bucket, remove, set_state, claim_in, claim_exits,
  claim_all_open, exit_triggered,
}
use quant_execution.Services.Keys.{KeyState}
use quant_execution.Services.Sizing.{Sized, sized, configuration_error}
use quant_execution.Services.World.{
  Answers, Error, Result, ok, err, World, Service, Exec, pure, raise, after, ◌>>=◌, ◌>>◌, gets,
  write, with_book, with_keys, record_price,
}
use quant_execution.Services.Execution.{
  or_raise, execute, enter, take_key, fill_paper, exit_paper, submit_exit, submit_exits, claim,
  check_exits, liquidate_all, last_or_entry,
}

abbrev pub IsPaper : Position → Type 0
IsPaper p = p.is_paper ≡ true

abbrev pub PaperBucket : Text × Bucket → Type 0
PaperBucket e = All (λ i. IsPaper i.1) e.1

abbrev pub PaperBook : Book → Type 0
PaperBook book = All PaperBucket book

-- An action that keeps a book of paper positions one and makes no call.
pub record IsQuiet {A : Type 0} (m : Exec A) : Type 0 where
  pub at : (w : World) → PaperBook w.book → PaperBook (m w).1.book × ((m w).1.calls ≡ w.calls)

module _ {A : Type 0} where
  pub IsQuiet-pure : (a : A) → IsQuiet (pure a)
  IsQuiet-pure a = record { at = λ w h. (h, refl) }

  pub IsQuiet-raise : (e : Error) → IsQuiet (raise {A = A} e)
  IsQuiet-raise e = record { at = λ w h. (h, refl) }

  IsQuiet-gets : (f : World → A) → IsQuiet (gets f)
  IsQuiet-gets f = record { at = λ w h. (h, refl) }

  IsQuiet-then : (b : Bool) (m n : Exec A) → b ≡ true → IsQuiet m → IsQuiet (if b then m else n)
  IsQuiet-then true m n e k = k
  IsQuiet-then false m n e k = cc e

module _ {A B : Type 0} where
  after-IsQuiet :
      (r : Result A) (f : A → Exec B) (w : World)
      → ((a : A) → IsQuiet (f a))
      → PaperBook w.book
      → PaperBook (after r f w).1.book × ((after r f w).1.calls ≡ w.calls)
  after-IsQuiet (ok a) f w k h = (k a).at w h
  after-IsQuiet (err e) f w k h = (h, refl)

  pub IsQuiet-bind :
      (m : Exec A) (f : A → Exec B) → IsQuiet m → ((a : A) → IsQuiet (f a)) → IsQuiet (m >>= f)
  IsQuiet-bind m f km kf = record {
    at = λ w h.
        let first = km.at w h in
        let next = after-IsQuiet (m w).0 f (m w).1 kf first.0 in (next.0, next.1 ∙ first.1);
  }

IsQuiet-write : (t : Task) → IsQuiet (write t)
IsQuiet-write t = record { at = λ w h. (h, refl) }

IsQuiet-with_keys : (f : KeyState → KeyState) → IsQuiet (with_keys f)
IsQuiet-with_keys f = record { at = λ w h. (h, refl) }

bucket_of-paper : (s : Text) (book : Book) → PaperBook book → PaperBucket (s, bucket_of s book)
bucket_of-paper s book h = elim (Option-cases (lookup s book)) [
  | inl gone ↦ rw (gone, bucket_of) tt
  | inr (b, held) ↦ rw (held, bucket_of) (lookup-All PaperBucket s b book h held)
]

pub IsQuiet-open : (p : Position) → IsPaper p → IsQuiet (with_book (open_position p))
unfolding open_position
IsQuiet-open p paper = record {
  at = λ w h. (
    insert-All PaperBucket p.symbol _ w.book
        (insert-All (λ i. IsPaper i.1) p.trade_id p _ paper (bucket_of-paper p.symbol w.book h)) h,
    refl,
  );
}

store_bucket-paper :
    (s : Text) (b : Bucket) (book : Book)
    → PaperBook book
    → PaperBucket (s, b)
    → PaperBook (store_bucket s b book)
store_bucket-paper s [] book h k = erase-All PaperBucket s book h
store_bucket-paper s (e ∷ b) book h k = insert-All PaperBucket s _ book k h

remove-paper : (p : Position) (book : Book) → PaperBook book → PaperBook (remove p book)
unfolding remove
remove-paper p book h = elim (Option-cases (lookup p.symbol book)) [
  | inl gone ↦ rw (gone, remove) h
  | inr (b, held) ↦
      rw (held, remove)
        (store_bucket-paper p.symbol (erase p.trade_id b) book h (
          erase-All (λ i. IsPaper i.1) p.trade_id b
            (lookup-All PaperBucket p.symbol b book h held)))
]

pub IsQuiet-remove : (p : Position) → IsQuiet (with_book (remove p))
IsQuiet-remove p = record { at = λ w h. (remove-paper p w.book h, refl) }

ruleset quiet_rules = (
  IsQuiet-pure, IsQuiet-raise, IsQuiet-gets, IsQuiet-bind, IsQuiet-write, IsQuiet-with_keys,
  IsQuiet-remove,
)

-- A paper position is exited by the simulated fill.
pub submit_exit-paper :
    (ans : Answers) (p : Position) (price : Decimal) (reason : ExitReason)
    → IsPaper p
    → submit_exit ans p price reason ≡ exit_paper ans p price reason
unfolding submit_exit
submit_exit-paper ans p price reason paper = either p.is_paper _ _ paper
  where
    either : (b : Bool) (m n : Exec (Unit {0})) → b ≡ true → (if b then m else n) ≡ m
    either true m n e = refl
    either false m n e = cc e
