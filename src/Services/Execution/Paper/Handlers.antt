-- ===== src/Services/Execution/Paper/Handlers.antt =====
-- `execute`, `check_exits` and `liquidate_all` of src/quant_execution/domain/services.py in paper mode.
use quant_execution.Base.{
  Text, ◌≡◌, refl, Bool, true, ◌&&◌, Option, none, some, List, [], ◌∷◌, inl, inr, Bool-cases,
  Option-cases, All, length, text_keys, nat_keys,
}
use quant_execution.Base.Sort.{append-All}
use quant_execution.Base.Dict.{lookup, lookup-All, insert-All}
use quant_execution.Domain.Decimal.{Decimal}
use quant_execution.Domain.Enums.{ExitReason, target_price, is_paper_mode, is_opened}
use quant_execution.Domain.Records.{Tick, WatchlistEntry, MessageMeta, Position}
use quant_execution.Positions.{Bucket, Book, claim_in, claim_exits, claim_all_open, exit_triggered}
use quant_execution.Services.Sizing.{Sized, sized, configuration_error}
use quant_execution.Services.World.{Answers, World, Service, Exec, pure, ◌>>=◌, ◌>>◌, record_price}
use quant_execution.Services.Execution.{
  or_raise, execute, enter, take_key, fill_paper, exit_paper, submit_exit, submit_exits, claim,
  check_exits, liquidate_all, last_or_entry,
}
use quant_execution.Services.Execution.Paper.{
  IsPaper, PaperBucket, PaperBook, IsQuiet, IsQuiet-pure, IsQuiet-gets, IsQuiet-then, IsQuiet-bind,
  IsQuiet-open, quiet_rules,
}

module _ (sv : Service) (paper : is_paper_mode sv.mode ≡ true) (ans : Answers) (tick : Tick)
    (entry : WatchlistEntry) where
  fill_paper-IsQuiet : (key : Text) (qty : Decimal) → IsQuiet (fill_paper sv ans tick entry key qty)
  unfolding fill_paper
  fill_paper-IsQuiet key qty = search (quiet_rules, IsQuiet-open _ refl)

  or_raise-IsQuiet : (s : Sized) → IsQuiet (or_raise s)
  or_raise-IsQuiet (sized qty notional) = search quiet_rules
  or_raise-IsQuiet configuration_error = search quiet_rules

  take_key-IsQuiet : (base : Text) → IsQuiet (take_key base)
  unfolding take_key
  take_key-IsQuiet base = record { at = λ w h. (h, refl) }

  enter-IsQuiet :
      (provenance : MessageMeta) (k : Option Text) → IsQuiet (enter sv ans tick entry provenance k)
  unfolding enter
  enter-IsQuiet provenance none = search quiet_rules
  enter-IsQuiet provenance (some key) =
      search (quiet_rules, or_raise-IsQuiet, fill_paper-IsQuiet, IsQuiet-then, paper) depth 12

  pub execute-IsQuiet : (provenance : MessageMeta) → IsQuiet (execute sv ans tick entry provenance)
  unfolding execute
  execute-IsQuiet provenance = search (quiet_rules, take_key-IsQuiet, enter-IsQuiet)

claim_in-IsPaper :
    (s : Text) (test : Position → Bool) (b : Bucket)
    → PaperBucket (s, b)
    → PaperBucket (s, (claim_in test b).0) × All IsPaper (claim_in test b).1
unfolding claim_in
claim_in-IsPaper s test [] h = (tt, tt)
claim_in-IsPaper s test ((i, p) ∷ b) h =
    let rest = claim_in-IsPaper s test b h.1 in
    elim (Bool-cases (is_opened p.state && test p)) [
      | inl taken ↦ rw taken ((h.0, rest.0), (h.0, rest.1))
      | inr left ↦ rw left ((h.0, rest.0), rest.1)
    ]

pub claim_exits-IsPaper :
    (s : Text) (price : Decimal) (book : Book)
    → PaperBook book
    → PaperBook (claim_exits s price book).0 × All IsPaper (claim_exits s price book).1
unfolding claim_exits
claim_exits-IsPaper s price book h = elim (Option-cases (lookup s book)) [
  | inl gone ↦ rw (gone, claim_exits) (h, tt)
  | inr (b, held) ↦
      let taken =
        claim_in-IsPaper s (exit_triggered price) b (lookup-All PaperBucket s b book h held) in
      rw (held, claim_exits) (insert-All PaperBucket s _ book taken.0 h, taken.1)
]

pub claim_all_open-IsPaper :
    (book : Book)
    → PaperBook book
    → PaperBook (claim_all_open book).0 × All IsPaper (claim_all_open book).1
unfolding claim_all_open
claim_all_open-IsPaper [] h = (tt, tt)
claim_all_open-IsPaper ((s, b) ∷ book) h =
    let here = claim_in-IsPaper s (λ _. true) b h.0 in
    let rest = claim_all_open-IsPaper book h.1 in
    ((here.0, rest.0), append-All IsPaper _ _ here.1 rest.1)

module _ (ans : Answers) where
  submit_exit-IsQuiet :
      (p : Position) (price : Decimal) (reason : ExitReason)
      → IsPaper p
      → IsQuiet (submit_exit ans p price reason)
  unfolding submit_exit exit_paper
  submit_exit-IsQuiet p price reason paper = search (quiet_rules, IsQuiet-then, paper) depth 10

  submit_exits-IsQuiet :
      (price : Position → World → Decimal) (reason : ExitReason) (ps : List Position)
      → All IsPaper ps
      → IsQuiet (submit_exits ans price reason ps)
  unfolding submit_exits
  submit_exits-IsQuiet price reason [] h = search quiet_rules
  submit_exits-IsQuiet price reason (p ∷ ps) h = IsQuiet-bind _ _ (IsQuiet-gets (price p)) (λ at.
      IsQuiet-bind _ _ (submit_exit-IsQuiet p at reason h.0)
        (λ u. submit_exits-IsQuiet price reason ps h.1))

-- What is done with the positions that a claim takes.
claim-IsQuiet :
    {A : Type 0} (f : Book → Book × List Position) (k : List Position → Exec A)
    → ((book : Book) → PaperBook book → PaperBook (f book).0 × All IsPaper (f book).1)
    → ((ps : List Position) → All IsPaper ps → IsQuiet (k ps))
    → IsQuiet (claim f >>= k)
unfolding claim
claim-IsQuiet f k keeps then_quiet = record {
  at = λ w h.
      let taken = keeps w.book h in
      (then_quiet (f w.book).1 taken.1).at (record w { book = (f w.book).0 }) taken.0;
}

pub check_exits-IsQuiet : (ans : Answers) (tick : Tick) → IsQuiet (check_exits ans tick)
unfolding check_exits
check_exits-IsQuiet ans tick =
    claim-IsQuiet _ (λ ps. submit_exits ans (λ p w. tick.price) target_price ps)
      (claim_exits-IsPaper tick.symbol tick.price)
      (λ ps h. submit_exits-IsQuiet ans _ target_price ps h)

pub liquidate_all-IsQuiet :
    (ans : Answers) (reason : ExitReason) → IsQuiet (liquidate_all ans reason)
unfolding liquidate_all
liquidate_all-IsQuiet ans reason =
    claim-IsQuiet _ (λ ps. submit_exits ans last_or_entry reason ps >> pure (length ps))
      claim_all_open-IsPaper
      (λ ps h.
        IsQuiet-bind _ _ (submit_exits-IsQuiet ans last_or_entry reason ps h)
          (λ u. IsQuiet-pure (length ps)))

pub record_price-IsQuiet : (symbol : Text) (price : Decimal) → IsQuiet (record_price symbol price)
unfolding record_price
record_price-IsQuiet symbol price = record { at = λ w h. (h, refl) }
