-- ===== src/Book.antt =====
-- source/engine/orderbook.cpp: `LocalOrderbook`, the mirror of one market's book. An iterator into
-- a side is its index. The state is the `Orderbook` that the class wraps.
pub mod Levels
pub mod Sorted
pub mod Snapshot
pub mod Depth
pub mod Best
pub mod Prices
use kalshi_market_maker.Prelude.{
  ℕ, zero, suc, ℤ, pos, ◌+ℤ◌, ◌-ℤ◌, ltb_ℤ, leb_ℤ, eqb_ℤ, Bool, true, false, ◌||◌, String, List, [],
  ◌∷◌, Option, none, some, if◌then◌else◌,
}
use kalshi_market_maker.Quantity
use kalshi_market_maker.Quantity.{Quantity, zero_quantity}
use kalshi_market_maker.Types.{Side, buys_yes, buys_no, Level, Orderbook, complement_price}

-- A default-constructed book.
abbrev pub empty_book : Orderbook
empty_book = record { ticker = ""; yes_levels = []; no_levels = [] }

-- `std::lower_bound` over a side sorted descending: the first level not above the price.
lower_bound : List Level → ℤ → ℕ
lower_bound [] p = 0
lower_bound (l ∷ ls) p =
    let rest = suc (lower_bound ls p) in if ltb_ℤ p l.price_cents then rest else 0

level_at : List Level → ℕ → Option Level
level_at [] i = none
level_at (l ∷ ls) zero = some l
level_at (l ∷ ls) (suc i) = level_at ls i

erase_at : List Level → ℕ → List Level
erase_at [] i = []
erase_at (l ∷ ls) zero = ls
erase_at (l ∷ ls) (suc i) = l ∷ erase_at ls i

set_at : List Level → ℕ → Level → List Level
set_at [] i v = []
set_at (l ∷ ls) zero v = v ∷ ls
set_at (l ∷ ls) (suc i) v = l ∷ set_at ls i v

insert_at : List Level → ℕ → Level → List Level
insert_at ls zero v = v ∷ ls
insert_at [] (suc i) v = v ∷ []
insert_at (l ∷ ls) (suc i) v = l ∷ insert_at ls i v

-- The index of the level at the price, `none` for `levels.end()`.
find_level : List Level → ℤ → Option ℕ
unfolding lower_bound level_at
find_level ls p = elim (level_at ls (lower_bound ls p)) [
  | none ↦ none
  | some l ↦ if eqb_ℤ l.price_cents p then some (lower_bound ls p) else none
]

insertion_point : List Level → ℤ → ℕ
unfolding lower_bound
insertion_point ls p = lower_bound ls p

-- The body of `apply_delta`, on the side that it selects.
pub apply_side_delta : List Level → ℤ → Quantity → List Level
unfolding find_level insertion_point lower_bound level_at erase_at set_at insert_at
apply_side_delta ls p delta = elim (find_level ls p) [
  | some i ↦ elim (level_at ls i) [
    | none ↦ ls
    | some l ↦
        let q = Quantity.add l.quantity delta in
        if Quantity.le q zero_quantity
        then erase_at ls i
        else set_at ls i (record l { quantity = q })
  ]
  | none ↦
      if Quantity.is_positive delta
      then insert_at ls (insertion_point ls p) (record { price_cents = p; quantity = delta })
      else ls
]

unfoldable pub apply_delta : Orderbook → Side → ℤ → Quantity → Orderbook
unfolding apply_side_delta
apply_delta b buys_yes p delta = record b { yes_levels = apply_side_delta b.yes_levels p delta }
apply_delta b buys_no p delta = record b { no_levels = apply_side_delta b.no_levels p delta }

-- `std::sort` by descending price.
insert_sorted : Level → List Level → List Level
insert_sorted v [] = v ∷ []
insert_sorted v (l ∷ ls) =
    if ltb_ℤ v.price_cents l.price_cents then l ∷ insert_sorted v ls else v ∷ l ∷ ls

unfoldable pub sort_descending : List Level → List Level
unfolding insert_sorted
sort_descending [] = []
sort_descending (l ∷ ls) = insert_sorted l (sort_descending ls)

unfoldable pub apply_snapshot : Orderbook → Orderbook
unfolding sort_descending
apply_snapshot snap = record snap {
  yes_levels = sort_descending snap.yes_levels;
  no_levels = sort_descending snap.no_levels;
}

unfoldable pub best_bid : Orderbook → Option Level
best_bid b = elim b.yes_levels [ [] ↦ none | l ∷ _ ↦ some l ]

unfoldable pub best_ask : Orderbook → Option Level
best_ask b = elim b.no_levels [
  | [] ↦ none
  | l ∷ _ ↦ some (record l { price_cents = complement_price l.price_cents })
]

unfoldable pub spread_cents : Orderbook → ℤ
unfolding best_bid best_ask
spread_cents b = elim (best_bid b) [
  | none ↦ pos 0
  | some bid ↦ elim (best_ask b) [ none ↦ pos 0 | some ask ↦ ask.price_cents -ℤ bid.price_cents ]
]
