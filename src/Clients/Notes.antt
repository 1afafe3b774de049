-- ===== src/Clients/Notes.antt =====
-- `WatchlistClient._fetch_page` of src/quant_execution/clients/watchlist_client.py, and the whole
-- fetch over it. httpx and pydantic are parameters: what a GET brings, and `validate`, which is
-- `WatchlistEntry.model_validate` and gives `none` where that raises.
use quant_execution.Base.{
  ℕ, zero, suc, ◌+◌, ◌*◌, ◌≤◌, ◌≡◌, refl, sym, ap, ◌∙◌, Option, none, some, List, [], ◌∷◌, ◌++◌,
  ◌⊎◌, arith, inl, inr, ltb, ltb→lt, length, take, drop, Bool-cases, length-take, take-add,
  take_short, drop-drop,
}
use mathlib.Core.Path.{fun_ext}
use quant_execution.Clients.Pages.{max_pages, with_front, after_page, fetch_from, fetch_active}

-- `payload.get("results", [])`: `iterable` is what iterating over its value gives.
pub data Results (R : Type 0) : Type 0 where
  missing not_iterable : Results R
  iterable : List R → Results R

-- One GET: an `httpx.HTTPError`, a body that is no JSON, or an array, an object or another value.
pub data Got (R : Type 0) : Type 0 where
  http_error invalid_json scalar : Got R
  records : List R → Got R
  object : Results R → Got R

pub data PageError : Type 0 where
  watchlist_error validation_error attribute_error type_error : PageError

pub data Page (A : Type 0) : Type 0 where
  entries : List A → Page A
  failed : PageError → Page A

module _ {A : Type 0} where
  abbrev with_record : Option A → Option (List A) → Option (List A)
  with_record none rest = none
  with_record (some a) none = none
  with_record (some a) (some rest) = some (a ∷ rest)

  abbrev validated : Option (List A) → Page A
  validated none = failed validation_error
  validated (some page) = entries page

module _ {R A : Type 0} where
  -- `[WatchlistEntry.model_validate(record) for record in records]`
  unfoldable pub validate_all : (R → Option A) → List R → Option (List A)
  validate_all validate [] = some []
  validate_all validate (r ∷ rs) =
      let rest = validate_all validate rs in with_record (validate r) rest

  -- `_fetch_page`
  unfoldable pub fetch_page : (R → Option A) → Got R → Page A
  unfolding validate_all
  fetch_page validate http_error = failed watchlist_error
  fetch_page validate invalid_json = failed watchlist_error
  fetch_page validate scalar = failed attribute_error
  fetch_page validate (records rs) = validated (validate_all validate rs)
  fetch_page validate (object missing) = entries []
  fetch_page validate (object not_iterable) = failed type_error
  fetch_page validate (object (iterable rs)) = validated (validate_all validate rs)

-- The page, or an exception that leaves `fetch_active`.
abbrev pub or_raises : {A : Type 0} → Page A → Option (List A)
or_raises (entries page) = some page
or_raises (failed e) = none

-- The answer is an array of these records, or an object with them as its results.
abbrev pub Brings : {R : Type 0} → Got R → List R → Type 0
Brings got rs = (got ≡ records rs) ⊎ (got ≡ object (iterable rs))

module _ {A : Type 0} where
  abbrev joined : Option (List A) → Option (List A) → Option (List A)
  joined none rest = none
  joined (some page) rest = with_front page rest

  joined-with_record :
      (a : Option A) (xs ys : Option (List A))
      → with_record a (joined xs ys) ≡ joined (with_record a xs) ys
  joined-with_record none xs ys = refl
  joined-with_record (some a) none ys = refl
  joined-with_record (some a) (some xs) none = refl
  joined-with_record (some a) (some xs) (some ys) = refl

  nothing_before : (o : Option (List A)) → o ≡ joined (some []) o
  nothing_before none = refl
  nothing_before (some xs) = refl

  -- The list, if there is one, has that length.
  abbrev OfLength : ℕ → Option (List A) → Type 0
  OfLength n none = Unit
  OfLength n (some page) = length page ≡ n

  with_record-OfLength :
      (a : Option A) (o : Option (List A)) (n : ℕ)
      → OfLength n o
      → OfLength (suc n) (with_record a o)
  with_record-OfLength none o n h = tt
  with_record-OfLength (some a) none n h = tt
  with_record-OfLength (some a) (some page) n h = ap suc h

  kept : (o : Option (List A)) → or_raises (validated o) ≡ o
  kept none = refl
  kept (some page) = refl

module _ {R A : Type 0} (validate : R → Option A) where
  validate_all-append :
      (xs ys : List R)
      → validate_all validate (xs ++ ys)
        ≡ joined (validate_all validate xs) (validate_all validate ys)
  unfolding validate_all
  validate_all-append [] ys = nothing_before _
  validate_all-append (x ∷ xs) ys =
      ap (with_record (validate x)) (validate_all-append xs ys)
      ∙ joined-with_record (validate x) (validate_all validate xs) (validate_all validate ys)

  brings_lem :
      (got : Got R) (rs : List R)
      → Brings got rs
      → or_raises (fetch_page validate got) ≡ validate_all validate rs
  unfolding fetch_page
  brings_lem got rs (inl e) = rw e (kept (validate_all validate rs))
  brings_lem got rs (inr e) = rw e (kept (validate_all validate rs))

  validate_all-OfLength : (rs : List R) → OfLength (length rs) (validate_all validate rs)
  unfolding validate_all
  validate_all-OfLength [] = refl
  validate_all-OfLength (r ∷ rs) = with_record-OfLength (validate r) _ _ (validate_all-OfLength rs)

  module _ (s rest : ℕ) (xs : List R) where
    abbrev later : Option (List A)
    later = validate_all validate (take rest (drop (suc s) xs))

    cut :
        validate_all validate (take (suc s + rest) xs)
        ≡ joined (validate_all validate (take (suc s) xs)) later
    cut =
        ap (validate_all validate) (take-add (suc s) rest xs)
        ∙ validate_all-append (take (suc s) xs) (take rest (drop (suc s) xs))

    last_page :
        length (take (suc s) xs) ≤ s
        → validate_all validate (take (suc s) xs) ≡ validate_all validate (take (suc s + rest) xs)
    last_page short =
        let few : length xs ≤ suc s = omega (arith, length-take (suc s) xs) in
        ap (validate_all validate)
          (take_short (suc s) xs few ∙ sym (take_short (suc s + rest) xs (omega (arith, few))))

    after_page_lem :
        (next : List A → Option (List A)) (o : Option (List A))
        → o ≡ validate_all validate (take (suc s) xs)
        → OfLength (length (take (suc s) xs)) o
        → ((page : List A) → length page ≡ suc s → next page ≡ later)
        → after_page (suc s) o next ≡ validate_all validate (take (suc s + rest) xs)
    after_page_lem next none e size ih = ap (λ o. joined o later) e ∙ sym cut
    after_page_lem next (some []) e size ih = e ∙ last_page (omega (arith, size))
    after_page_lem next (some (a ∷ page)) e size ih =
        elim (Bool-cases (ltb (length (a ∷ page)) (suc s))) [
          | inl short ↦ rw short (e ∙ last_page (omega (arith, size, ltb→lt _ _ short)))
          | inr whole ↦
              let full : length (a ∷ page) ≡ suc s = ground (arith, size, length-take (suc s) xs) in
              rw whole (
                ap (with_front (a ∷ page)) (ih (a ∷ page) full)
                ∙ ap (λ o. joined o later) e
                ∙ sym cut)
        ]

  fetch_from_lem :
      (all : List R) (s pages offset : ℕ)
      → fetch_from (λ o. validate_all validate (take (suc s) (drop o all))) (suc s) pages offset
        ≡ validate_all validate (take (pages * suc s) (drop offset all))
  unfolding fetch_from validate_all
  fetch_from_lem all s zero offset =
      ap (λ n. validate_all validate (take n (drop offset all))) no_pages
    where
      no_pages : 0 ≡ zero * suc s
      no_pages = omega arith
  fetch_from_lem all s (suc pages) offset =
      after_page_lem s (pages * suc s) (drop offset all) _ _ refl
        (validate_all-OfLength (take (suc s) (drop offset all)))
        (λ page size.
          fetch_from_lem all s pages (offset + length page)
          ∙ ap (λ xs. validate_all validate (take (pages * suc s) xs))
              (ap (λ n. drop (offset + n) all) size ∙ sym (drop-drop offset (suc s) all)))
      ∙ ap (λ n. validate_all validate (take n (drop offset all))) one_page_more
    where
      one_page_more : suc s + pages * suc s ≡ suc pages * suc s
      one_page_more = omega arith

  -- Of a service whose pages are the parts of one list of records, at the limit asked for and in
  -- either shape, the client gets the records of the whole list, up to the limit on the number of
  -- pages, each validated and in order; if one of these does not validate, it gets none.
  pub fetch_active_validated :
      (all : List R) (get : ℕ → Got R) (page_size : ℕ)
      → 1 ≤ page_size
      → ((offset : ℕ) → Brings (get offset) (take page_size (drop offset all)))
      → fetch_active (λ o. or_raises (fetch_page validate (get o))) page_size
        ≡ validate_all validate (take (max_pages * page_size) all)
  unfolding fetch_active
  fetch_active_validated all get zero h brings = absurd (omega arith)
  fetch_active_validated all get (suc s) h brings =
      ap (λ f. fetch_from f (suc s) max_pages 0) (fun_ext (λ o. brings_lem _ _ (brings o)))
      ∙ fetch_from_lem all s max_pages 0

validate_all-some : {A : Type 0} → (xs : List A) → validate_all some xs ≡ some xs
unfolding validate_all
validate_all-some [] = refl
validate_all-some (x ∷ xs) = ap (with_record (some x)) (validate_all-some xs)

-- Of a service whose pages are the parts of one list, at the limit asked for, the client gets the
-- whole list in order, up to the limit on the number of pages.
fetch_active_all :
    {A : Type 0} (all : List A) (page : ℕ → Option (List A)) (page_size : ℕ)
    → 1 ≤ page_size
    → ((offset : ℕ) → page offset ≡ some (take page_size (drop offset all)))
    → fetch_active page page_size ≡ some (take (max_pages * page_size) all)
fetch_active_all {A = A} all page page_size h serves =
    let got : ℕ → Got A = λ o. records (take page_size (drop o all)) in
    ap (λ f. fetch_active f page_size)
      (fun_ext (λ o. serves o ∙ sym (brings_lem some (got o) _ (inl refl) ∙ validate_all-some _)))
    ∙ fetch_active_validated some all got page_size h (λ o. inl refl)
    ∙ validate_all-some _
