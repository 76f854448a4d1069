-- ===== src/Witnesses/Books.antt =====
-- The theorems of the order book at concrete inputs.
use kalshi_market_maker.Prelude.{
  ℤ, pos, negsuc, ◌+ℤ◌, ◌*ℤ◌, max_ℤ, leb_ℤ, +ℤ_parts, false, [], ◌∷◌, ◌-ℤ◌, ◌≡◌, refl, arith,
}
use kalshi_market_maker.Float.Exact.{whole}
use kalshi_market_maker.Quantity
use kalshi_market_maker.Quantity.{Quantity, from_centi, contracts}
use kalshi_market_maker.Types.{buys_yes, buys_no, Orderbook}
use kalshi_market_maker.Book.{apply_delta, apply_snapshot, best_bid, best_ask}
use kalshi_market_maker.Book.Sorted.{IsSortedBook, IsLadderBook, apply_delta-IsLadderBook}
use mathlib.Core.List.{Perm}
use kalshi_market_maker.Book.Snapshot.{apply_snapshot_sorts}
use kalshi_market_maker.Book.Depth.{resting, levels_of, resting-apply_delta, apply_delta_undo}
use kalshi_market_maker.Book.Best.{IsBestBid, IsBestAsk, best_of_sorted}
use kalshi_market_maker.Book.Prices.{
  DepthWeighting, clearing_price_cents, micro_price_cents, clearing-eq-micro,
}
use kalshi_market_maker.Witnesses.{quotes}

quotes-IsLadderBook : IsLadderBook quotes
quotes-IsLadderBook = ground arith

abbrev unsorted : Orderbook
unsorted = record quotes {
  yes_levels =
      (record { price_cents = pos 42; quantity = from_centi (pos 1000) })
      ∷ (record { price_cents = pos 44; quantity = from_centi (pos 300) })
      ∷ [];
}

apply_snapshot_sorts_example :
    IsSortedBook (apply_snapshot unsorted)
    × (Perm (apply_snapshot unsorted).yes_levels unsorted.yes_levels
        × Perm (apply_snapshot unsorted).no_levels unsorted.no_levels)
apply_snapshot_sorts_example = apply_snapshot_sorts unsorted

apply_delta-IsLadderBook_example :
    IsLadderBook (apply_delta quotes buys_yes (pos 43) (from_centi (pos 200)))
apply_delta-IsLadderBook_example =
    apply_delta-IsLadderBook quotes buys_yes (pos 43) (from_centi (pos 200)) quotes-IsLadderBook

resting-apply_delta_example :
    resting
      (levels_of (apply_delta quotes buys_yes (pos 44) (from_centi (negsuc 399))) buys_yes)
      (pos 44)
    ≡ max_ℤ (pos 0) (resting quotes.yes_levels (pos 44) +ℤ negsuc 399)
resting-apply_delta_example =
    resting-apply_delta quotes buys_yes (pos 44) (from_centi (negsuc 399)) buys_yes (pos 44)
      quotes-IsLadderBook

apply_delta_undo_example :
    apply_delta
      (apply_delta quotes buys_no (pos 50) (from_centi (pos 200)))
      buys_no
      (pos 50)
      (Quantity.negated (from_centi (pos 200)))
    ≡ quotes
apply_delta_undo_example =
    apply_delta_undo quotes buys_no (pos 50) (from_centi (pos 200)) quotes-IsLadderBook
      (ground arith)

best_of_sorted_example : IsBestBid quotes (best_bid quotes) × IsBestAsk quotes (best_ask quotes)
best_of_sorted_example = best_of_sorted quotes (ground arith)

abbrev one_each : Orderbook
one_each = record quotes {
  yes_levels = record { price_cents = pos 44; quantity = from_centi (pos 300) } ∷ [];
}

abbrev flat_decay : DepthWeighting ℤ
flat_decay = record { decay_per_cent = pos 1; max_levels = pos 10 }

sum_positive :
    (x y : ℤ) → leb_ℤ x (pos 0) ≡ false → leb_ℤ y (pos 0) ≡ false → leb_ℤ (x +ℤ y) (pos 0) ≡ false
sum_positive x y a b = ground (arith, a, b, +ℤ_parts x y)

clearing-eq-micro_example : clearing_price_cents flat_decay one_each ≡ micro_price_cents one_each
unfolding ◌+ℤ◌ ◌*ℤ◌ ◌-ℤ◌
clearing-eq-micro_example =
    clearing-eq-micro flat_decay one_each
      (record { price_cents = pos 44; quantity = from_centi (pos 300) })
      (record { price_cents = pos 53; quantity = from_centi (pos 700) }) (λ _. refl) sum_positive
      refl refl refl
      (record {
        nought-add_weight = refl;
        nought-add_product = refl;
        mul-one = refl;
        div-mul = refl;
      })
      (record {
        nought-add_weight = refl;
        nought-add_product = refl;
        mul-one = refl;
        div-mul = refl;
      })
