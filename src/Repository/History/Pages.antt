-- ===== src/Repository/History/Pages.antt =====
-- The pages of `list_history` of src/quant_execution/repository/trades_repo.py.
use mathlib.Core.List.{Perm}
use mathlib.Core.Path.{fun_ext}
use quant_execution.Base.{
  ℕ, ◌*◌, ◌≤◌, Text, ◌≡◌, ◌≢◌, refl, sym, ap, subst, ◌∙◌, Bool, true, false, not, ◌&&◌, Option,
  none, some, [], ◌∷◌, arith, text_eq, length, take, drop, keep_if, All, pages_by, pages_by-all,
  leb, Bool-cases, inl, inr,
}
use quant_execution.Base.Sort.{
  insert_with, sort_with, InOrder, sort_with-InOrder, sort_with-perm, sort_with-All, keep_if-keeps,
  All-map, length-sort_with,
}
use quant_execution.Domain.Enums.{status_value}
use quant_execution.Domain.Records.{Trade}
use quant_execution.Repository.History.{
  Filter, selected, newest_first, newest_first-IsOrder, history, list_history,
}
use quant_execution.Repository.Trades.{Table}

-- No two rows of the list have one `created_at`.
abbrev pub Apart : Table → Type 0
Apart [] = Unit {0}
Apart (t ∷ ts) = All (λ u. t.created_at ≢ u.created_at) ts × Apart ts

abbrev asked_mode : Option Bool → Bool → Bool
asked_mode none p = true
asked_mode (some true) p = p
asked_mode (some false) p = not p

abbrev asked_text : Option Text → Text → Bool
asked_text none s = true
asked_text (some t) s = text_eq s t

-- The row has what the filter asks for.
abbrev pub matches : Filter → Trade → Bool
matches f t =
    asked_mode f.is_paper t.is_paper
    && (asked_text f.status (status_value t.status) && asked_text f.symbol t.symbol)

abbrev pub no_older : Trade → Trade → Bool
no_older t u = leb u.created_at t.created_at

selected_lem : (f : Filter) (t : Trade) → selected f t ≡ matches f t
unfolding selected
selected_lem f t = ground arith

module _ (one two : Trade → ℕ) where
  same_place :
      (t u : Trade) → t.created_at ≢ u.created_at → newest_first one t u ≡ newest_first two t u
  same_place t u apart = ground (arith, apart)

  insert_with-same :
      (t : Trade) (ts : Table)
      → All (λ u. t.created_at ≢ u.created_at) ts
      → insert_with (newest_first one) t ts ≡ insert_with (newest_first two) t ts
  unfolding insert_with
  insert_with-same t [] apart = refl
  insert_with-same t (u ∷ ts) apart =
      rw (same_place t u apart.0, insert_with-same t ts apart.1) refl

  sort_with-same :
      (ts : Table) → Apart ts → sort_with (newest_first one) ts ≡ sort_with (newest_first two) ts
  unfolding sort_with
  sort_with-same [] apart = refl
  sort_with-same (t ∷ ts) apart =
      ap (insert_with (newest_first one) t) (sort_with-same ts apart.1)
      ∙ insert_with-same t (sort_with (newest_first two) ts)
          (sort_with-All _ (newest_first two) ts apart.0)

keep_if-Apart : (p : Trade → Bool) (ts : Table) → Apart ts → Apart (keep_if p ts)
keep_if-Apart p [] h = tt
keep_if-Apart p (t ∷ ts) h = elim (Bool-cases (p t)) [
  | inl here ↦ rw here (keep_if-keeps _ p ts h.0, keep_if-Apart p ts h.1)
  | inr other ↦ rw other (keep_if-Apart p ts h.1)
]

InOrder-no_older :
    (rank : Trade → ℕ) (ts : Table) → InOrder (newest_first rank) ts → InOrder no_older ts
InOrder-no_older rank [] h = tt
InOrder-no_older rank (t ∷ ts) h =
    (All-map (λ u e. ground (arith, e)) ts h.0, InOrder-no_older rank ts h.1)

-- A client asks for one page after another, at the offset where the last one ended, and the rows do
-- not change meanwhile. If no two rows have one `created_at`, and it asks for enough pages, then it
-- gets each row that has what the filter asks for once, and no other, newest first, however the
-- database orders rows with one `created_at` in each of the queries.
pub pages_cover :
    (ranks : ℕ → Trade → ℕ) (f : Filter) (limit n : ℕ) (rows : Table)
    → Apart rows
    → length (keep_if (matches f) rows) ≤ n * limit
    → let pages = pages_by (λ offset. list_history (ranks offset) f limit offset rows) limit n 0 in
      Perm pages (keep_if (matches f) rows) × InOrder no_older pages
unfolding list_history history
pages_cover ranks f limit n rows apart enough =
    let kept = keep_if (selected f) rows in
    let all = sort_with (newest_first (ranks 0)) kept in
    let same : kept ≡ keep_if (matches f) rows =
      ap (λ p. keep_if p rows) (fun_ext (selected_lem f)) in
    let many : length all ≤ n * limit =
      omega (arith, length-sort_with (newest_first (ranks 0)) kept, ap length same, enough) in
    let whole : pages_by (λ offset. list_history (ranks offset) f limit offset rows) limit n 0
        ≡ all =
      pages_by-all (λ offset. list_history (ranks offset) f limit offset rows) limit all
        (λ offset.
          ap (λ ts. take limit (drop offset ts))
            (sort_with-same (ranks offset) (ranks 0) kept (keep_if-Apart (selected f) rows apart)))
        n many in
    subst (λ pages. Perm pages (keep_if (matches f) rows) × InOrder no_older pages) (sym whole)
      (
        subst (Perm all) same (sort_with-perm (newest_first (ranks 0)) kept),
        InOrder-no_older (ranks 0) all
            (sort_with-InOrder (newest_first (ranks 0)) (newest_first-IsOrder (ranks 0)) kept),
      )
