-- ===== src/Matching/Refresher.antt =====
-- `class WatchlistRefresher`. A fetch answers `none` where the fetcher raises; the loop of
-- `run_forever` is the list of its wake-ups, each a clock reading and the answer of a fetch.
use quant_execution.Base.{
  ℕ, ◌≡◌, refl, Bool, true, false, ◌&&◌, not, Option, none, some, List, [], ◌∷◌, arith, inl, inr,
  if◌then◌else◌, length, nat_eq, Option-cases,
}
use quant_execution.Domain.Records.{WatchlistEntry}
use quant_execution.Domain.Clock.{ClockTime, Moment, has_reached}
use quant_execution.Matching.Store.{WatchlistStore, replace}

pub record Refresher : Type 0 where
  pub store : WatchlistStore
  pub open_time : Option ClockTime
  pub last_run : Option ℕ

abbrev pub Fetch : Type 0
Fetch = Option (List WatchlistEntry)

-- `self._last_run != today`
abbrev pub not_run_on : Option ℕ → ℕ → Bool
not_run_on none today = true
not_run_on (some d) today = not (nat_eq d today)

-- `refresh_once`: the count, or `none` where the fetcher raised and the snapshot stays.
unfoldable pub refresh_once : Fetch → Refresher → Option ℕ × Refresher
refresh_once none r = (none, r)
refresh_once (some es) r = (some (length es), record r { store = replace es r.store })

abbrev refresh_at : Option ClockTime → Moment → Fetch → Refresher → Option ℕ × Refresher
refresh_at none now fetch r = (some 0, r)
refresh_at (some t) now fetch r =
    if has_reached now t && not_run_on r.last_run now.day
    then refresh_once fetch (record r { last_run = some now.day })
    else (some 0, r)

-- `maybe_refresh`
unfoldable pub maybe_refresh : Moment → Fetch → Refresher → Option ℕ × Refresher
unfolding refresh_once
maybe_refresh now fetch r = refresh_at r.open_time now fetch r

abbrev mark_started : Option ClockTime → Moment → Refresher → Refresher
mark_started none now r = r
mark_started (some t) now r = if has_reached now t then record r { last_run = some now.day } else r

-- The start of `run_forever`, before its loop.
unfoldable pub start_up : Moment → Fetch → Refresher → Refresher
unfolding refresh_once
start_up now fetch r = let r' = (refresh_once fetch r).1 in mark_started r'.open_time now r'

-- The loop of `run_forever`: an exception is logged, and the loop goes on.
unfoldable pub wake_ups : List (Moment × Fetch) → Refresher → Refresher
unfolding maybe_refresh
wake_ups [] r = r
wake_ups ((now, fetch) ∷ rest) r = wake_ups rest (maybe_refresh now fetch r).1

abbrev SameDay : ℕ → List (Moment × Fetch) → Type 0
SameDay d [] = Unit
SameDay d ((now, fetch) ∷ rest) = (now.day ≡ d) × SameDay d rest

maybe_refresh_again :
    (now : Moment) (fetch : Fetch) (r : Refresher)
    → r.last_run ≡ some now.day
    → maybe_refresh now fetch r ≡ (some 0, r)
unfolding maybe_refresh
maybe_refresh_again now fetch r ran = elim (Option-cases r.open_time) [
  | inl never ↦ ground arith
  | inr (t, at) ↦ ground arith
]

wake_ups_idle :
    (d : ℕ) (later : List (Moment × Fetch)) (r : Refresher)
    → r.last_run ≡ some d
    → SameDay d later
    → wake_ups later r ≡ r
unfolding wake_ups
wake_ups_idle d [] r ran same = refl
wake_ups_idle d ((now, fetch) ∷ rest) r ran same =
    rw (maybe_refresh_again now fetch r (rw same.0 ran)) (wake_ups_idle d rest r ran same.1)

maybe_refresh-last_run :
    (now : Moment) (fetch : Fetch) (r : Refresher) (t : ClockTime)
    → r.open_time ≡ some t
    → has_reached now t ≡ true
    → (maybe_refresh now fetch r).1.last_run ≡ some now.day
unfolding maybe_refresh
maybe_refresh-last_run now none r t opens due = elim (Option-cases r.last_run) [
  | inl first ↦ ground arith
  | inr (d, ran) ↦ ground arith
]
maybe_refresh-last_run now (some es) r t opens due = elim (Option-cases r.last_run) [
  | inl first ↦ ground arith
  | inr (d, ran) ↦ ground arith
]

-- Once a check of a day at or after the open time has been made, no later wake-up of that day
-- changes the refresher or its store, whether the fetch succeeded or raised.
pub refresh_once_a_day :
    (now : Moment) (fetch : Fetch) (later : List (Moment × Fetch)) (r : Refresher) (t : ClockTime)
    → r.open_time ≡ some t
    → has_reached now t ≡ true
    → SameDay now.day later
    → wake_ups later (maybe_refresh now fetch r).1 ≡ (maybe_refresh now fetch r).1
refresh_once_a_day now fetch later r t opens due same =
    wake_ups_idle now.day later (maybe_refresh now fetch r).1
      (maybe_refresh-last_run now fetch r t opens due) same

-- The first wake-up at or after the open time on a new day loads what the fetcher returns; if the
-- fetcher raises, the day counts as run and the snapshot stays.
pub maybe_refresh_due :
    (now : Moment) (fetch : Fetch) (r : Refresher) (t : ClockTime)
    → r.open_time ≡ some t
    → has_reached now t ≡ true
    → not_run_on r.last_run now.day ≡ true
    → maybe_refresh now fetch r ≡ (elim fetch [
      | none ↦ (none, record r { last_run = some now.day })
      | some es ↦
          (some (length es), record r { store = replace es r.store; last_run = some now.day })
    ])
unfolding maybe_refresh
maybe_refresh_due now none r t opens due fresh = ground arith
maybe_refresh_due now (some es) r t opens due fresh = ground arith

-- Before the open time, and with no open time, a wake-up changes nothing.
pub maybe_refresh_early :
    (now : Moment) (fetch : Fetch) (r : Refresher)
    → ((t : ClockTime) → r.open_time ≡ some t → has_reached now t ≡ false)
    → maybe_refresh now fetch r ≡ (some 0, r)
unfolding maybe_refresh
maybe_refresh_early now fetch r early = elim (Option-cases r.open_time) [
  | inl never ↦ ground arith
  | inr (t, opens) ↦ ground (arith, early t opens)
]
