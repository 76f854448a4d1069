-- ===== src/Orders/History.antt =====
-- Calls of `record_fill` (source/exchange/order_manager.cpp) one after another.
use kalshi_market_maker.Prelude.{
  ℤ, pos, ◌+ℤ◌, String, List, [], ◌∷◌, ◌≡◌, refl, sym, ◌∙◌, inl, inr, arith, Bool-cases,
  if◌then◌else◌, contains, str_eq, str_eq_iff, get_or, get_or-insert, All, +ℤ_zero, +ℤ_assoc,
}
use kalshi_market_maker.Float.{Double}
use kalshi_market_maker.Quantity
use kalshi_market_maker.Quantity.{zero_quantity}
use kalshi_market_maker.Types.{Fill}
use kalshi_market_maker.Orders.{Manager, record_fill, apply_fill, fill_key, signed_quantity}
use kalshi_market_maker.Orders.Inventory.{IsBalancedManager, position_of}
use kalshi_market_maker.Orders.Fills.{IsValidFill, record_fill-IsBalanced}

module _ {W : Type 0} ⦃d : Double W⦄ where
  unfoldable pub run_fills : List (Fill W) → Manager W → Manager W
  run_fills [] m = m
  run_fills (f ∷ fs) m = run_fills fs (record_fill f m).1

  -- The specification: the signed hundredths of a contract that the fills of a market trade, each
  -- fill counted once, by its key, and those already seen not at all.
  unfoldable pub fresh_volume : List String → String → List (Fill W) → ℤ
  fresh_volume seen t [] = pos 0
  fresh_volume seen t (f ∷ fs) =
      if contains (fill_key f) seen
      then fresh_volume seen t fs
      else (if str_eq f.market_ticker t then (signed_quantity f.side f.quantity).centi else pos 0)
        +ℤ fresh_volume (fill_key f ∷ seen) t fs

  record_valid :
      (f : Fill W) (m : Manager W)
      → IsValidFill f
      → (record_fill f m).1 ≡ (if contains (fill_key f) m.seen_fills then m else apply_fill f m)
  unfolding record_fill
  record_valid f m (price, size) = elim (Bool-cases (contains (fill_key f) m.seen_fills)) [
    | inl old ↦ rw (price, size, old)
    | inr fresh ↦ rw (price, size, fresh)
  ]

  position-apply_fill :
      (f : Fill W) (m : Manager W) (t : String)
      → position_of (apply_fill f m) t
        ≡ position_of m t
          +ℤ (if str_eq f.market_ticker t then (signed_quantity f.side f.quantity).centi else pos 0)
  unfolding apply_fill
  position-apply_fill f m t = ground (
    arith,
    get_or-insert f.market_ticker t
        (Quantity.add (get_or f.market_ticker zero_quantity m.net_positions)
          (signed_quantity f.side f.quantity))
        zero_quantity m.net_positions,
    str_eq_iff f.market_ticker t,
    +ℤ_zero (position_of m t),
  )

  seen-apply_fill :
      (f : Fill W) (m : Manager W) → (apply_fill f m).seen_fills ≡ fill_key f ∷ m.seen_fills
  unfolding apply_fill
  seen-apply_fill f m = refl

  -- After any list of valid fills the net position of a market is the old one plus the signed
  -- volume of the fills not seen before, each counted once by its key.
  pub run_fills-position :
      (fs : List (Fill W)) (m : Manager W) (t : String)
      → All IsValidFill fs
      → position_of (run_fills fs m) t ≡ position_of m t +ℤ fresh_volume m.seen_fills t fs
  unfolding run_fills fresh_volume
  run_fills-position [] m t v = sym (+ℤ_zero (position_of m t))
  run_fills-position (f ∷ fs) m t v = elim (Bool-cases (contains (fill_key f) m.seen_fills)) [
    | inl old ↦
        let same : (record_fill f m).1 ≡ m = record_valid f m v.0 ∙ rw old in
        rw (old, same) (run_fills-position fs m t v.1)
    | inr fresh ↦
        let new : (record_fill f m).1 ≡ apply_fill f m = record_valid f m v.0 ∙ rw fresh in
        rw (fresh, new)
          (run_fills-position fs (apply_fill f m) t v.1
            ∙ rw (position-apply_fill f m t, seen-apply_fill f m) (+ℤ_assoc _ _ _))
  ]

  -- If in every market all lots are positive, one side holds none and the position is YES lots
  -- less NO lots, the same is true after any list of fills, valid or not.
  pub run_fills-IsBalanced :
      (fs : List (Fill W)) (m : Manager W)
      → IsBalancedManager m
      → IsBalancedManager (run_fills fs m)
  unfolding run_fills
  run_fills-IsBalanced [] m v = v
  run_fills-IsBalanced (f ∷ fs) m v = run_fills-IsBalanced fs _ (record_fill-IsBalanced f m v)
