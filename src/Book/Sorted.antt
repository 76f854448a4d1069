-- ===== src/Book/Sorted.antt =====
-- The order of the levels of a side, in source/engine/orderbook.cpp.
use kalshi_market_maker.Prelude.{ℤ, pos, ◌≤ℤ◌, ◌<ℤ◌, List, [], ◌∷◌, arith, All, All-map_of}
use kalshi_market_maker.Quantity.{Quantity}
use kalshi_market_maker.Types.{Level, Orderbook, Side, buys_yes, buys_no}
use kalshi_market_maker.Book.{insert_sorted, sort_descending, apply_snapshot, apply_delta}
use kalshi_market_maker.Book.Levels.{merge, apply_side_delta-merge}

abbrev pub AtMost : ℤ → Level → Type 0
AtMost p l = l.price_cents ≤ℤ p

abbrev pub BelowPrice : ℤ → Level → Type 0
BelowPrice p l = l.price_cents <ℤ p

-- Sorted descending, equal prices allowed: what `std::lower_bound` needs.
abbrev pub IsDescending : List Level → Type 0
IsDescending [] = Unit
IsDescending (l ∷ ls) = All (AtMost l.price_cents) ls × IsDescending ls

-- Strictly descending, every size positive: a side with one level for each price.
abbrev pub IsLadder : List Level → Type 0
IsLadder [] = Unit
IsLadder (l ∷ ls) = (pos 0 <ℤ l.quantity.centi) × All (BelowPrice l.price_cents) ls × IsLadder ls

abbrev pub IsSortedBook : Orderbook → Type 0
IsSortedBook b = IsDescending b.yes_levels × IsDescending b.no_levels

abbrev pub IsLadderBook : Orderbook → Type 0
IsLadderBook b = IsLadder b.yes_levels × IsLadder b.no_levels

AtMost-trans : (p q : ℤ) (ls : List Level) → p ≤ℤ q → All (AtMost p) ls → All (AtMost q) ls
AtMost-trans p q ls h a = All-map_of (AtMost p) (AtMost q) ls (λ l m. omega arith) a

pub BelowPrice-trans :
    (p q : ℤ) (ls : List Level) → p <ℤ q → All (BelowPrice p) ls → All (BelowPrice q) ls
BelowPrice-trans p q ls h a = All-map_of (BelowPrice p) (BelowPrice q) ls (λ l m. omega arith) a

insert_sorted-AtMost :
    (p : ℤ) (v : Level) (ls : List Level)
    → v.price_cents ≤ℤ p
    → All (AtMost p) ls
    → All (AtMost p) (insert_sorted v ls)
unfolding insert_sorted
insert_sorted-AtMost p v [] h a = (h, tt)
insert_sorted-AtMost p v (l ∷ ls) h a = ground (arith, insert_sorted-AtMost p v ls h a.1)

insert_sorted-IsDescending :
    (v : Level) (ls : List Level) → IsDescending ls → IsDescending (insert_sorted v ls)
unfolding insert_sorted
insert_sorted-IsDescending v [] s = (tt, tt)
insert_sorted-IsDescending v (l ∷ ls) s = ground (
  arith,
  insert_sorted-IsDescending v ls s.1,
  insert_sorted-AtMost l.price_cents v ls,
  AtMost-trans l.price_cents v.price_cents ls,
)

sort_descending-IsDescending : (ls : List Level) → IsDescending (sort_descending ls)
unfolding sort_descending
sort_descending-IsDescending [] = tt
sort_descending-IsDescending (l ∷ ls) =
    insert_sorted-IsDescending l _ (sort_descending-IsDescending ls)

pub apply_snapshot-IsSortedBook : (snap : Orderbook) → IsSortedBook (apply_snapshot snap)
unfolding apply_snapshot
apply_snapshot-IsSortedBook snap =
    (sort_descending-IsDescending snap.yes_levels, sort_descending-IsDescending snap.no_levels)

merge-AtMost :
    (b p : ℤ) (ls : List Level) (delta : Quantity)
    → p ≤ℤ b
    → All (AtMost b) ls
    → All (AtMost b) (merge ls p delta)
unfolding merge
merge-AtMost b p [] delta h a = ground arith
merge-AtMost b p (l ∷ ls) delta h a = ground (arith, merge-AtMost b p ls delta h a.1)

merge-IsDescending :
    (p : ℤ) (ls : List Level) (delta : Quantity) → IsDescending ls → IsDescending (merge ls p delta)
unfolding merge
merge-IsDescending p [] delta s = ground arith
merge-IsDescending p (l ∷ ls) delta s = ground (
  arith,
  merge-IsDescending p ls delta s.1,
  merge-AtMost l.price_cents p ls delta,
  AtMost-trans l.price_cents p ls,
)

pub apply_delta-IsSortedBook :
    (b : Orderbook) (side : Side) (p : ℤ) (delta : Quantity)
    → IsSortedBook b
    → IsSortedBook (apply_delta b side p delta)
unfolding apply_delta
apply_delta-IsSortedBook b buys_yes p delta s =
    rw (apply_side_delta-merge) (merge-IsDescending p b.yes_levels delta s.0, s.1)
apply_delta-IsSortedBook b buys_no p delta s =
    rw (apply_side_delta-merge) (s.0, merge-IsDescending p b.no_levels delta s.1)

merge-BelowPrice :
    (b p : ℤ) (ls : List Level) (delta : Quantity)
    → p <ℤ b
    → All (BelowPrice b) ls
    → All (BelowPrice b) (merge ls p delta)
unfolding merge
merge-BelowPrice b p [] delta h a = ground arith
merge-BelowPrice b p (l ∷ ls) delta h a = ground (arith, merge-BelowPrice b p ls delta h a.1)

merge-IsLadder :
    (p : ℤ) (ls : List Level) (delta : Quantity) → IsLadder ls → IsLadder (merge ls p delta)
unfolding merge
merge-IsLadder p [] delta s = ground arith
merge-IsLadder p (l ∷ ls) delta s = ground (
  arith,
  merge-IsLadder p ls delta s.2,
  merge-BelowPrice l.price_cents p ls delta,
  BelowPrice-trans l.price_cents p ls,
)

-- A delta keeps both sides strictly descending in price with positive sizes.
pub apply_delta-IsLadderBook :
    (b : Orderbook) (side : Side) (p : ℤ) (delta : Quantity)
    → IsLadderBook b
    → IsLadderBook (apply_delta b side p delta)
unfolding apply_delta
apply_delta-IsLadderBook b buys_yes p delta s =
    rw (apply_side_delta-merge) (merge-IsLadder p b.yes_levels delta s.0, s.1)
apply_delta-IsLadderBook b buys_no p delta s =
    rw (apply_side_delta-merge) (s.0, merge-IsLadder p b.no_levels delta s.1)
