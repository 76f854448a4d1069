-- ===== src/Book/Levels.antt =====
-- One side of a book as a plain recursion: what the index arithmetic of `apply_delta` amounts to.
use kalshi_market_maker.Prelude.{ℤ, ltb_ℤ, eqb_ℤ, List, [], ◌∷◌, if◌then◌else◌, ◌≡◌, arith, ◌<ℤ◌}
use kalshi_market_maker.Quantity
use kalshi_market_maker.Quantity.{Quantity, zero_quantity}
use kalshi_market_maker.Types.{Level}
use kalshi_market_maker.Book.{apply_side_delta}

-- The merge of one delta into a side, level by level.
unfoldable pub merge : List Level → ℤ → Quantity → List Level
merge [] p delta =
    if Quantity.is_positive delta then record { price_cents = p; quantity = delta } ∷ [] else []
merge (l ∷ ls) p delta =
    if ltb_ℤ p l.price_cents
    then l ∷ merge ls p delta
    else if eqb_ℤ l.price_cents p
    then (if Quantity.le (Quantity.add l.quantity delta) zero_quantity
        then ls
        else record l { quantity = Quantity.add l.quantity delta } ∷ ls)
    else if Quantity.is_positive delta
    then record { price_cents = p; quantity = delta } ∷ l ∷ ls
    else l ∷ ls

pub apply_side_delta-merge :
    (ls : List Level) (p : ℤ) (delta : Quantity) → apply_side_delta ls p delta ≡ merge ls p delta
unfolding apply_side_delta merge
apply_side_delta-merge [] p delta = ground arith
apply_side_delta-merge (l ∷ ls) p delta = ground (arith, apply_side_delta-merge ls p delta)

module _ (l : Level) (ls : List Level) (p : ℤ) (delta : Quantity) where
  pub merge_deeper : p <ℤ l.price_cents → merge (l ∷ ls) p delta ≡ l ∷ merge ls p delta
  unfolding merge
  merge_deeper h = ground arith

  pub merge_here :
      l.price_cents ≡ p
      → merge (l ∷ ls) p delta ≡ (
          if Quantity.le (Quantity.add l.quantity delta) zero_quantity
          then ls
          else record l { quantity = Quantity.add l.quantity delta } ∷ ls)
  unfolding merge
  merge_here h = ground arith

  pub merge_between :
      l.price_cents <ℤ p
      → merge (l ∷ ls) p delta ≡ (
          if Quantity.is_positive delta
          then record { price_cents = p; quantity = delta } ∷ l ∷ ls
          else l ∷ ls)
  unfolding merge
  merge_between h = ground arith
