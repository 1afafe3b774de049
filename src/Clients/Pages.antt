-- ===== src/Clients/Pages.antt =====
-- `WatchlistClient.fetch_active` of src/quant_execution/clients/watchlist_client.py.
-- `fetch_page` is one GET of the service: the page at an offset, or `none` for an exception.
use quant_execution.Base.{
  ℕ, zero, suc, ◌+◌, Option, none, some, List, [], ◌∷◌, ◌++◌, ltb, if◌then◌else◌, length,
}

abbrev pub max_pages : ℕ
max_pages = 10000

module _ {A : Type 0} where
  abbrev pub with_front : List A → Option (List A) → Option (List A)
  with_front page none = none
  with_front page (some rest) = some (page ++ rest)

  -- What one page decides, with the rest of the loop: a failed page ends the call, an empty or a
  -- short one the loop.
  abbrev pub after_page : ℕ → Option (List A) → (List A → Option (List A)) → Option (List A)
  after_page size none next = none
  after_page size (some []) next = some []
  after_page size (some (a ∷ page)) next =
      if ltb (length (a ∷ page)) size
      then some (a ∷ page)
      else with_front (a ∷ page) (next (a ∷ page))

  unfoldable pub fetch_from : (ℕ → Option (List A)) → ℕ → ℕ → ℕ → Option (List A)
  fetch_from fetch_page size zero offset = some []
  fetch_from fetch_page size (suc pages) offset =
      after_page size (fetch_page offset)
        (λ page. fetch_from fetch_page size pages (offset + length page))

  -- `fetch_active`
  unfoldable pub fetch_active : (ℕ → Option (List A)) → ℕ → Option (List A)
  fetch_active fetch_page page_size = fetch_from fetch_page page_size max_pages 0
