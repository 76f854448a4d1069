-- ===== src/Book/Best.antt =====
-- The ends of the book: the best bid and the best ask among the levels that rest.
use kalshi_market_maker.Prelude.{
  ℤ, ◌≤ℤ◌, List, [], ◌∷◌, Option, none, some, ◌≡◌, refl, arith, All, All-map_of, int_laws,
}
use mathlib.Core.List.{Mem, mem-cons_self, map}
use kalshi_market_maker.Types.{Level, Orderbook, complement_price}
use kalshi_market_maker.Book.{best_bid, best_ask}
use kalshi_market_maker.Book.Sorted.{IsSortedBook, IsDescending, AtMost}

-- The best bid is one of the bids and none is above it; without one there are no bids.
abbrev pub IsBestBid : Orderbook → Option Level → Type 0
IsBestBid b none = b.yes_levels ≡ []
IsBestBid b (some l) = Mem l b.yes_levels × All (AtMost l.price_cents) b.yes_levels

-- A NO bid implies a YES ask at the complement of its price. The best ask is one of these, none is
-- below it, and without one there are no NO bids.
abbrev pub AsksFrom : ℤ → Level → Type 0
AsksFrom p m = p ≤ℤ complement_price m.price_cents

abbrev pub implied_ask : Level → Level
implied_ask l = record l { price_cents = complement_price l.price_cents }

abbrev pub IsBestAsk : Orderbook → Option Level → Type 0
IsBestAsk b none = b.no_levels ≡ []
IsBestAsk b (some l) =
    Mem l (map implied_ask b.no_levels) × All (AsksFrom l.price_cents) b.no_levels

top_bid :
    (ls : List Level) (l : Level) → IsDescending (l ∷ ls) → All (AtMost l.price_cents) (l ∷ ls)
top_bid ls l s = (omega arith, s.0)

top_ask :
    (ls : List Level) (l : Level)
    → IsDescending (l ∷ ls)
    → All (AsksFrom (complement_price l.price_cents)) (l ∷ ls)
top_ask ls l s = (
  omega arith,
  All-map_of (AtMost l.price_cents) (AsksFrom (complement_price l.price_cents)) ls
      (λ m h. omega int_laws) s.0,
)

best_bid_of :
    (t : Orderbook) (ls : List Level)
    → t.yes_levels ≡ ls
    → IsDescending ls
    → IsBestBid t (best_bid t)
unfolding best_bid
best_bid_of t [] e s = rw (e, best_bid)
best_bid_of t (l ∷ ls) e s = rw (e, best_bid) (mem-cons_self, top_bid ls l s)

best_ask_of :
    (t : Orderbook) (ls : List Level)
    → t.no_levels ≡ ls
    → IsDescending ls
    → IsBestAsk t (best_ask t)
unfolding best_ask
best_ask_of t [] e s = rw (e, best_ask)
best_ask_of t (l ∷ ls) e s = rw (e, best_ask) (mem-cons_self, top_ask ls l s)

-- On sorted sides best_bid is one of the YES levels and none of them is higher, best_ask is a
-- NO level at the complement of its price and no complement is lower, and either is absent
-- exactly on an empty side.
pub best_of_sorted :
    (b : Orderbook) → IsSortedBook b → IsBestBid b (best_bid b) × IsBestAsk b (best_ask b)
best_of_sorted b s = (best_bid_of b b.yes_levels refl s.0, best_ask_of b b.no_levels refl s.1)
