-- ===== src/Book/Snapshot.antt =====
-- `apply_snapshot` of source/engine/orderbook.cpp against the snapshot it is given.
use mathlib.Core.List.Perm
use mathlib.Core.List.{Perm}
use kalshi_market_maker.Prelude.{ltb_ℤ, List, [], ◌∷◌, Bool-cases, inl, inr}
use kalshi_market_maker.Types.{Level, Orderbook}
use kalshi_market_maker.Book.{insert_sorted, sort_descending, apply_snapshot}
use kalshi_market_maker.Book.Sorted.{IsSortedBook, apply_snapshot-IsSortedBook}

insert_sorted-Perm : (v : Level) (ls : List Level) → Perm (insert_sorted v ls) (v ∷ ls)
unfolding insert_sorted
insert_sorted-Perm v [] = Perm.rfl
insert_sorted-Perm v (l ∷ ls) = elim (Bool-cases (ltb_ℤ v.price_cents l.price_cents)) [
  | inl e ↦ rw e (Perm.trans (Perm.cons l (insert_sorted-Perm v ls)) (Perm.swap v l ls))
  | inr e ↦ rw e Perm.rfl
]

sort_descending-Perm : (ls : List Level) → Perm (sort_descending ls) ls
unfolding sort_descending
sort_descending-Perm [] = Perm.rfl
sort_descending-Perm (l ∷ ls) =
    Perm.trans (insert_sorted-Perm l (sort_descending ls)) (Perm.cons l (sort_descending-Perm ls))

-- A snapshot in any order becomes a book with both sides descending in price, each a
-- permutation of the levels of the snapshot.
pub apply_snapshot_sorts :
    (snap : Orderbook)
    → IsSortedBook (apply_snapshot snap)
      × (Perm (apply_snapshot snap).yes_levels snap.yes_levels
          × Perm (apply_snapshot snap).no_levels snap.no_levels)
unfolding apply_snapshot
apply_snapshot_sorts snap = (
  apply_snapshot-IsSortedBook snap,
  (sort_descending-Perm snap.yes_levels, sort_descending-Perm snap.no_levels),
)
