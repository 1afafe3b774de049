-- ===== src/Pnl/Reporter/Counts.antt =====
-- How many trades the reports of two days count: `_maybe_report_mode` of
-- src/quant_execution/domain/pnl.py over `list_closed_between` of repository/trades_repo.py.
use quant_execution.Base.{
  ℕ, zero, suc, ◌+◌, ◌-◌, ◌≤◌, ◌≡◌, refl, ap, ap₂, ◌∙◌, Bool, true, false, not, ◌&&◌, ◌||◌, Option,
  none, some, List, [], ◌∷◌, arith, if◌then◌else◌, ltb, leb, length, take, keep_if,
}
use quant_execution.Base.Sort.{insert_with, sort_with, length-sort_with}
use quant_execution.Domain.Clock.{ClockTime}
use quant_execution.Domain.Decimal.{Decimal, is_zero}
use quant_execution.Domain.Enums.{ExecutionMode, is_paper_mode, TradeStatus, closed}
use quant_execution.Domain.Records.{Trade}
use quant_execution.Pnl.{Amount, trade_pnl}
use quant_execution.Pnl.Reporter.{Reading, report_for, row_limit}
use quant_execution.Pnl.Totals.{with_amount, realized_of, report_totals}
use quant_execution.Repository.Trades.{
  Table, closed_within, list_closed_between, ascending, or_zero,
}

abbrev pub one_if : Bool → ℕ
one_if true = 1
one_if false = 0

-- How many elements pass a test.
abbrev pub count_of {ℓ} : {A : Type ℓ} → (A → Bool) → List A → ℕ
count_of p [] = 0
count_of p (x ∷ xs) = one_if (p x) + count_of p xs

module _ {ℓ} {A : Type ℓ} (p : A → Bool) where
  count_of-insert_with :
      (before : A → A → Bool) (x : A) (xs : List A)
      → count_of p (insert_with before x xs) ≡ one_if (p x) + count_of p xs
  unfolding insert_with
  count_of-insert_with before x [] = refl
  count_of-insert_with before x (y ∷ ys) = ground (arith, count_of-insert_with before x ys)

  count_of-sort_with :
      (before : A → A → Bool) (xs : List A) → count_of p (sort_with before xs) ≡ count_of p xs
  unfolding sort_with
  count_of-sort_with before [] = refl
  count_of-sort_with before (x ∷ xs) =
      omega
        (arith, count_of-insert_with before x (sort_with before xs), count_of-sort_with before xs)

  count_of-keep_if :
      (q : A → Bool) (xs : List A) → count_of p (keep_if q xs) ≡ count_of (λ x. q x && p x) xs
  count_of-keep_if q [] = refl
  count_of-keep_if q (x ∷ xs) = ground (arith, count_of-keep_if q xs)

  length-keep_if : (xs : List A) → length (keep_if p xs) ≤ length xs
  length-keep_if [] = omega arith
  length-keep_if (x ∷ xs) = ground (arith, length-keep_if xs)

take_all : {A : Type 0} (n : ℕ) (xs : List A) → length xs ≤ n → take n xs ≡ xs
take_all zero [] h = refl
take_all (suc n) [] h = refl
take_all zero (x ∷ xs) h = absurd (omega (arith, h))
take_all (suc n) (x ∷ xs) h = ap (λ t. x ∷ t) (take_all n xs (omega (arith, h)))

abbrev is_some : {A : Type 0} → Option A → Bool
is_some none = false
is_some (some a) = true

abbrev pub is_some_nonzero : Option Decimal → Bool
is_some_nonzero none = false
is_some_nonzero (some d) = not (is_zero d)

-- Both prices are there, and the quantity of the exit, other than zero, or that of the entry.
abbrev pub has_figures : Trade → Bool
has_figures t =
    is_some t.filled_avg_price
    && (is_some t.exit_filled_avg_price
        && (is_some_nonzero t.exit_filled_quantity || is_some t.filled_quantity))

abbrev is_done : TradeStatus → Bool
is_done closed = true
is_done _ = false

abbrev after_until : ℕ → ℕ → Option ℕ → Bool
after_until start end none = false
after_until start end (some c) = ltb start c && leb c end

-- A trade of the mode that closed after `start` and by `end`, and has its figures.
abbrev pub counts_in : ExecutionMode → ℕ → ℕ → Trade → Bool
counts_in mode start end t =
    (if is_paper_mode mode then t.is_paper else not t.is_paper)
    && (is_done t.status && (after_until start end t.closed_at && has_figures t))

priced_lem : (t : Trade) → is_some (trade_pnl t) ≡ has_figures t
unfolding trade_pnl
priced_lem t = ground arith

with_amount-length :
    (o : Option Amount) (b : Bool) (rest : List Amount) (n : ℕ)
    → is_some o ≡ b
    → length rest ≡ n
    → length (with_amount o rest) ≡ one_if b + n
with_amount-length none b rest n e h = ground arith
with_amount-length (some a) b rest n e h = ground arith

pub realized_of-length : (ts : List Trade) → length (realized_of ts) ≡ count_of has_figures ts
realized_of-length [] = refl
realized_of-length (t ∷ ts) =
    with_amount-length (trade_pnl t) (has_figures t) (realized_of ts) _ (priced_lem t)
      (realized_of-length ts)

counts_in_lem :
    (mode : ExecutionMode) (start end : ℕ) (t : Trade)
    → (closed_within start end (is_paper_mode mode) t && has_figures t) ≡ counts_in mode start end t
unfolding is_paper_mode
counts_in_lem mode start end t = ground arith

count_of-same :
    (p q : Trade → Bool) (ts : List Trade)
    → ((t : Trade) → p t ≡ q t)
    → count_of p ts ≡ count_of q ts
count_of-same p q [] h = refl
count_of-same p q (t ∷ ts) h = ap₂ (λ b n. one_if b + n) (h t) (count_of-same p q ts h)

-- A report counts the trades of its mode that closed after the close time of the day before and by
-- the report, and that have their figures, if the rows are no more than its limit.
report_for-counts :
    (combine : ℕ → ClockTime → ℕ) (mode : ExecutionMode) (close : ClockTime) (now : Reading)
    (rows : Table)
    → length rows ≤ row_limit
    → (report_for combine mode close now rows).total_trades
      ≡ count_of (counts_in mode (combine (now.wall.day - 1) close) now.instant) rows
unfolding report_for list_closed_between
report_for-counts combine mode close now rows few =
    let start = combine (now.wall.day - 1) close in
    let kept = keep_if (closed_within start now.instant (is_paper_mode mode)) rows in
    let sorted = sort_with (ascending λ t. or_zero t.closed_at) kept in
    let fits : length sorted ≤ row_limit = omega (
      arith,
      few,
      length-sort_with (ascending λ t. or_zero t.closed_at) kept,
      length-keep_if (closed_within start now.instant (is_paper_mode mode)) rows,
    ) in
    (report_totals (take row_limit sorted) now.wall.day mode).0
    ∙ (ap (λ ts. length (realized_of ts)) (take_all row_limit sorted fits)
        ∙ (realized_of-length sorted
            ∙ (count_of-sort_with has_figures (ascending λ t. or_zero t.closed_at) kept
                ∙ (count_of-keep_if has_figures
                      (closed_within start now.instant (is_paper_mode mode)) rows
                    ∙ count_of-same _ _ rows (counts_in_lem mode start now.instant)))))

windows_add :
    (mode : ExecutionMode) (start close now later : ℕ) (ts : List Trade)
    → start ≤ close
    → close ≤ now
    → now ≤ later
    → count_of (counts_in mode start now) ts + count_of (counts_in mode close later) ts
      ≡ count_of (counts_in mode start later) ts + count_of (counts_in mode close now) ts
windows_add mode start close now later [] h k l = refl
windows_add mode start close now later (t ∷ ts) h k l =
    omega (arith, one_row t, windows_add mode start close now later ts h k l)
  where
    one_row :
        (t : Trade)
        → one_if (counts_in mode start now t) + one_if (counts_in mode close later t)
          ≡ one_if (counts_in mode start later t) + one_if (counts_in mode close now t)
    one_row t = ground (arith, h, k, l)

-- Of the reports of one day and of the next on the same rows, no more than their limit, each made at
-- or after its close: together they count each trade of the mode that closed after the close of the
-- day before the first and by the second report, and that has both prices and a quantity, once; and
-- those that closed after the first day's close and by the first day's report once more.
pub reports_add :
    (combine : ℕ → ClockTime → ℕ) (mode : ExecutionMode) (close : ClockTime) (now later : Reading)
    (rows : Table)
    → length rows ≤ 100000
    → later.wall.day ≡ now.wall.day + 1
    → combine (now.wall.day - 1) close ≤ combine now.wall.day close
    → combine now.wall.day close ≤ now.instant
    → now.instant ≤ later.instant
    → let before = combine (now.wall.day - 1) close in
      (report_for combine mode close now rows).total_trades
        + (report_for combine mode close later rows).total_trades
      ≡ count_of (counts_in mode before later.instant) rows
        + count_of (counts_in mode (combine now.wall.day close) now.instant) rows
reports_add combine mode close now later rows few next forward due ahead =
    let day : later.wall.day - 1 ≡ now.wall.day = omega (arith, next) in
    ap₂ (λ (m n : ℕ). m + n) (report_for-counts combine mode close now rows few)
      (report_for-counts combine mode close later rows few
        ∙ ap (λ d. count_of (counts_in mode (combine d close) later.instant) rows) day)
    ∙ windows_add mode (combine (now.wall.day - 1) close) (combine now.wall.day close) now.instant
        later.instant rows forward due ahead
