-- ===== src/Orders/Fills.antt =====
-- `record_fill` of source/exchange/order_manager.cpp as a whole.
use kalshi_market_maker.Prelude.{
  pos, ◌≡◌, ◌⊎◌, inl, inr, Bool, true, false, Bool-cases, contains, ltb_ℤ→lt, done, panicked,
  Outcome, ensure,
}
use kalshi_market_maker.Float.{Double}
use kalshi_market_maker.Quantity
use kalshi_market_maker.Types.{Fill, is_valid_price}
use kalshi_market_maker.Orders.{Manager, record_fill, apply_fill, fill_key}
use kalshi_market_maker.Orders.Inventory.{IsBalancedManager, apply_fill-IsBalanced}

-- The `ensure`s of `record_fill`.
abbrev pub IsValidFill : {W : Type 0} → Fill W → Type 0
IsValidFill f = (is_valid_price f.price_cents ≡ true) × (Quantity.is_positive f.quantity ≡ true)

module _ {W : Type 0} ⦃d : Double W⦄ (fill : Fill W) (m : Manager W) where
  -- The four ways out of `record_fill`.
  pub data Recorded : Outcome Bool × Manager W → Type 0 where
    refused :
        (is_valid_price fill.price_cents ≡ false) ⊎ (Quantity.is_positive fill.quantity ≡ false)
        → Recorded (panicked, m)
    duplicate : contains (fill_key fill) m.seen_fills ≡ true → Recorded (done false, m)
    recorded :
        IsValidFill fill
        → contains (fill_key fill) m.seen_fills ≡ false
        → Recorded (done true, apply_fill fill m)

  -- record_fill either panics with the state unchanged on a bad price or size, or returns
  -- false with the state unchanged on a known key, or returns true with the fill applied.
  pub record_fill-Recorded : Recorded (record_fill fill m)
  unfolding record_fill
  record_fill-Recorded = elim (Bool-cases (is_valid_price fill.price_cents)) [
    | inr bad ↦ rw (bad, ensure) (refused (inl bad))
    | inl price ↦ elim (Bool-cases (Quantity.is_positive fill.quantity)) [
      | inr bad ↦ rw (price, bad) (refused (inr bad))
      | inl size ↦ elim (Bool-cases (contains (fill_key fill) m.seen_fills)) [
        | inl old ↦ rw (price, size, old) (duplicate old)
        | inr fresh ↦ rw (price, size, fresh) (recorded (price, size) fresh)
      ]
    ]
  ]

  -- Whatever comes of a fill, every market stays balanced.
  pub record_fill-IsBalanced : IsBalancedManager m → IsBalancedManager (record_fill fill m).1
  record_fill-IsBalanced v = kept record_fill-Recorded
    where
      kept : {r : Outcome Bool × Manager W} → Recorded r → IsBalancedManager r.1
      kept (refused _) = v
      kept (duplicate _) = v
      kept (recorded valid _) =
          apply_fill-IsBalanced fill m (ltb_ℤ→lt (pos 0) fill.quantity.centi valid.1) v
