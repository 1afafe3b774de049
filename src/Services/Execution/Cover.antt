-- ===== src/Services/Execution/Cover.antt =====
-- The cash behind a live entry: `execute`, `_reserve_cash` and `_release_hold_safe` of
-- src/quant_execution/domain/services.py, after the key is taken.
use mathlib.Core.List.{append_assoc}
use quant_execution.Base.{
  ℕ, Text, ◌≡◌, refl, ap, ◌∙◌, ◌⊎◌, inl, inr, Bool, true, false, some, List, [], ◌∷◌, ◌++◌, arith,
  All, Bool-cases, text_eq_refl, nat_eq_refl, text_keys, nat_keys,
}
use quant_execution.Base.Int.{◌≤ℤ◌}
use quant_execution.Domain.Decimal.{Decimal, below}
use quant_execution.Domain.Enums.{is_paper_mode, entry_side, pending_entry}
use quant_execution.Domain.Records.{Tick, WatchlistEntry, MessageMeta, Position, AlpacaOrder}
use quant_execution.Positions.{find}
use quant_execution.Positions.Entries.{find-open_position}
use quant_execution.Services.Execution.{enter}
use quant_execution.Services.Execution.Outcomes.{
  entered, live_entry_short, live_entry_placed, live_entry_refused, live_entry_unread,
}
use quant_execution.Services.Sizing.{sized, compute_sizing}
use quant_execution.Services.World.{
  Reply, answer, refused, invalid, Answers, Call, submit, fetch, read_balance, hold, capture,
  release, World, Service,
}

abbrev pub is_order : Call → Bool
is_order (submit symbol quantity side key) = true
is_order (fetch id) = false
is_order read_balance = false
is_order (hold amount key) = false
is_order (capture h) = false
is_order (release h) = false

module _ (sv : Service) (ans : Answers) (tick : Tick) (entry : WatchlistEntry)
    (provenance : MessageMeta) (key : Text) (w : World) (qty notional : Decimal) where
  abbrev pub entry_reply : Reply AlpacaOrder
  entry_reply = ans.submit_order entry.symbol qty (entry_side entry.position_type) key

  -- No order was placed, and the book is as before.
  abbrev pub NoOrder : World → Type 0
  NoOrder w' =
      (cs : List Call) × (w'.calls ≡ w.calls ++ cs)
      × All (λ c. is_order c ≡ false) cs
      × (w'.book ≡ w.book)

  -- The order was accepted, and its position waits for the fill with the order and the hold; or it
  -- was refused, and the hold is released; or the answer could not be read.
  abbrev pub Settles : ℕ → List Call → World → Type 0
  Settles h cs w' =
      ((order : AlpacaOrder) × (p : Position) × (entry_reply ≡ answer order)
        × (cs ≡ [])
        × (find entry.symbol ans.new_id w'.book ≡ some p)
        × (p.state ≡ pending_entry)
        × (p.quantity ≡ qty)
        × (p.broker_order_id ≡ some order.id)
        × (p.cash_hold_id ≡ some h))
      ⊎ (((detail : Text) × (entry_reply ≡ refused detail)
            × (cs ≡ release h ∷ [])
            × (w'.book ≡ w.book))
          ⊎ ((entry_reply ≡ invalid) × (cs ≡ []) × (w'.book ≡ w.book)))

  -- The order was placed after the balance was read, which covers the notional, and after the
  -- notional was held.
  abbrev pub Covered : World → Type 0
  Covered w' =
      (balance : Decimal) × (h : ℕ) × (cs : List Call) × (ans.available_balance ≡ answer balance)
      × (notional ≤ℤ balance)
      × (ans.place_hold notional key ≡ answer h)
      × (w'.calls
          ≡ w.calls
            ++ read_balance
              ∷ hold notional key
              ∷ submit entry.symbol qty (entry_side entry.position_type) key
              ∷ cs)
      × Settles h cs w'

  module _ (sizes : compute_sizing tick.price sv.notional_usd sv.quantity ≡ sized qty notional)
      (live : is_paper_mode sv.mode ≡ false) where
    abbrev pub ended : World
    ended = (enter sv ans tick entry provenance (some key) w).1

    four :
        (a b c : Call) (cs : List Call)
        → ((w.calls ++ a ∷ []) ++ b ∷ []) ++ c ∷ cs ≡ w.calls ++ a ∷ b ∷ c ∷ cs
    four a b c cs =
        append_assoc (w.calls ++ a ∷ []) (b ∷ []) (c ∷ cs)
        ∙ append_assoc w.calls (a ∷ []) (b ∷ c ∷ cs)

    covers : (b : Decimal) → below b notional ≡ false → notional ≤ℤ b
    covers b h = ground (arith, h)

    ordered :
        (b : Decimal) (h : ℕ) (r : Reply AlpacaOrder)
        → ans.available_balance ≡ answer b
        → below b notional ≡ false
        → ans.place_hold notional key ≡ answer h
        → entry_reply ≡ r
        → Covered ended
    ordered b h (answer order) reads covered holds places =
        let e =
          live_entry_placed sv ans tick entry provenance key w qty notional sizes b h order live
            reads covered holds places in
        let p =
          entered sv ans tick entry provenance key w qty notional sizes false (some order.id)
            (some h) in
        (
          b,
          h,
          [],
          reads,
          covers b covered,
          holds,
          ap (λ r. r.1.calls) e ∙ four _ _ _ [],
          inl (
            order,
            p,
            places,
            refl,
            ap (λ r. find entry.symbol ans.new_id r.1.book) e
                ∙ (find-open_position p w.book entry.symbol ans.new_id
                    ∙ rw (text_eq_refl entry.symbol, nat_eq_refl ans.new_id) refl),
            refl,
            refl,
            refl,
            refl,
          ),
        )
    ordered b h (refused detail) reads covered holds refuses =
        let e =
          live_entry_refused sv ans tick entry provenance key w qty notional sizes b h detail live
            reads covered holds refuses in
        (
          b,
          h,
          release h ∷ [],
          reads,
          covers b covered,
          holds,
          ap (λ r. r.1.calls) e
              ∙ (append_assoc _ (submit entry.symbol qty (entry_side entry.position_type) key ∷ [])
                    (release h ∷ [])
                  ∙ four _ _ _ (release h ∷ [])),
          inr (inl (detail, refuses, refl, ap (λ r. r.1.book) e)),
        )
    ordered b h invalid reads covered holds unread =
        let e =
          live_entry_unread sv ans tick entry provenance key w qty notional sizes b h live reads
            covered holds unread in
        (
          b,
          h,
          [],
          reads,
          covers b covered,
          holds,
          ap (λ r. r.1.calls) e ∙ four _ _ _ [],
          inr (inr (unread, refl, ap (λ r. r.1.book) e)),
        )

    hold_refused :
        (b : Decimal) (detail : Text)
        → ans.available_balance ≡ answer b
        → below b notional ≡ false
        → ans.place_hold notional key ≡ refused detail
        → ((enter sv ans tick entry provenance (some key) w).1.calls
            ≡ w.calls ++ read_balance ∷ hold notional key ∷ [])
          × ((enter sv ans tick entry provenance (some key) w).1.book ≡ w.book)
    unfolding enter
    hold_refused b detail reads covered holds =
        rw (sizes, enter)
          (rw live
            (rw reads (rw covered (rw holds (append_assoc w.calls (read_balance ∷ []) _, refl)))))

    hold_unread :
        (b : Decimal)
        → ans.available_balance ≡ answer b
        → below b notional ≡ false
        → ans.place_hold notional key ≡ invalid
        → ((enter sv ans tick entry provenance (some key) w).1.calls
            ≡ w.calls ++ read_balance ∷ hold notional key ∷ [])
          × ((enter sv ans tick entry provenance (some key) w).1.book ≡ w.book)
    unfolding enter
    hold_unread b reads covered holds =
        rw (sizes, enter)
          (rw live
            (rw reads (rw covered (rw holds (append_assoc w.calls (read_balance ∷ []) _, refl)))))

    balance_refused :
        (detail : Text)
        → ans.available_balance ≡ refused detail
        → ((enter sv ans tick entry provenance (some key) w).1.calls ≡ w.calls ++ read_balance ∷ [])
          × ((enter sv ans tick entry provenance (some key) w).1.book ≡ w.book)
    unfolding enter
    balance_refused detail reads = rw (sizes, enter) (rw live (rw reads (refl, refl)))

    balance_unread :
        ans.available_balance ≡ invalid
        → ((enter sv ans tick entry provenance (some key) w).1.calls ≡ w.calls ++ read_balance ∷ [])
          × ((enter sv ans tick entry provenance (some key) w).1.book ≡ w.book)
    unfolding enter
    balance_unread reads = rw (sizes, enter) (rw live (rw reads (refl, refl)))

    no_order :
        (cs : List Call)
        → All (λ c. is_order c ≡ false) cs
        → (ended.calls ≡ w.calls ++ cs) × (ended.book ≡ w.book)
        → NoOrder ended ⊎ Covered ended
    no_order cs none_placed done = inl (cs, done.0, none_placed, done.1)

    held :
        (b : Decimal) (r : Reply ℕ)
        → ans.available_balance ≡ answer b
        → below b notional ≡ false
        → ans.place_hold notional key ≡ r
        → NoOrder ended ⊎ Covered ended
    held b (answer h) reads covered holds = inr (ordered b h entry_reply reads covered holds refl)
    held b (refused detail) reads covered holds =
        no_order _ (refl, (refl, tt)) (hold_refused b detail reads covered holds)
    held b invalid reads covered holds =
        no_order _ (refl, (refl, tt)) (hold_unread b reads covered holds)

    read : (r : Reply Decimal) → ans.available_balance ≡ r → NoOrder ended ⊎ Covered ended
    read (answer b) reads = elim (Bool-cases (below b notional)) [
      | inl short ↦
          let e =
            live_entry_short sv ans tick entry provenance key w qty notional sizes b live reads
              short in
          no_order (read_balance ∷ []) (refl, tt) (ap (λ r. r.1.calls) e, ap (λ r. r.1.book) e)
      | inr covered ↦ held b (ans.place_hold notional key) reads covered refl
    ]
    read (refused detail) reads = no_order _ (refl, tt) (balance_refused detail reads)
    read invalid reads = no_order _ (refl, tt) (balance_unread reads)

    -- Whatever the clients answer to a live entry of a size that can be computed: either it places no
    -- order and leaves the book as it was; or it places exactly one, under its key, after it has
    -- read a balance that covers the notional and has held the notional. Where the order is accepted
    -- its position waits in the book with the order's id and the hold; where it is refused the hold
    -- is released and the book is as it was; where the answer cannot be read the book is as it was
    -- and the hold stays.
    pub order_backed : NoOrder ended ⊎ Covered ended
    order_backed = read ans.available_balance refl
