-- ===== src/Risk/Gate.antt =====
-- The pre-trade gate `check_order` of source/engine/risk_manager.cpp.
use kalshi_market_maker.Prelude.{
  ℤ, pos, ◌+ℤ◌, ◌≤ℤ◌, ◌<ℤ◌, neg, neg_parts, Bool, true, false, String, ◌≡◌, ◌↔◌, arith, refl,
  get_or, ltb_ℤ, leb_ℤ, ◌||◌, if◌then◌else◌,
}
use kalshi_market_maker.Quantity
use kalshi_market_maker.Quantity.{Quantity, zero_quantity, from_contracts}
use kalshi_market_maker.Types.{Side}
use kalshi_market_maker.Risk.{RiskManager, check_order, is_halted, signed_size}

-- The limits of the gate, each by itself.
pub record IsAllowed {W : Type 0} (r : RiskManager W) (ticker : String) (side : Side)
    (price quantity : ℤ) : Type 0 where
  pub running : is_halted r ≡ false
  pub size_le : quantity ≤ℤ r.limits.max_order_size
  pub price_ge : r.limits.min_quote_price_cents ≤ℤ price
  pub price_le : price ≤ℤ r.limits.max_quote_price_cents
  pub orders_lt :
      get_or ticker (pos 0) r.cached_open_order_count <ℤ r.limits.max_open_orders_per_market
  pub position_le :
      (get_or ticker zero_quantity r.cached_position).centi
        +ℤ (from_contracts (signed_size side quantity)).centi
      ≤ℤ (from_contracts r.limits.max_position_per_market).centi
  pub position_ge :
      neg (from_contracts r.limits.max_position_per_market).centi
      ≤ℤ (get_or ticker zero_quantity r.cached_position).centi
        +ℤ (from_contracts (signed_size side quantity)).centi

abs_iff :
    (q bound : Quantity)
    → (Quantity.le (Quantity.abs q) bound ≡ true)
      ↔ ((q.centi ≤ℤ bound.centi) × (neg bound.centi ≤ℤ q.centi))
abs_iff q bound = (
  λ h. ground (arith, neg_parts q.centi, neg_parts bound.centi),
  λ h. ground (arith, neg_parts q.centi, neg_parts bound.centi),
)

module _ {W : Type 0} (r : RiskManager W) (ticker : String) (side : Side) (price quantity : ℤ) where
  -- The position after the order fills.
  abbrev next : Quantity
  next =
      Quantity.add (get_or ticker zero_quantity r.cached_position)
        (from_contracts (signed_size side quantity))

  abbrev position_test : Bool
  position_test = Quantity.le (Quantity.abs next) (from_contracts r.limits.max_position_per_market)

  tests : check_order r ticker side price quantity ≡ (
      if is_halted r
      then false
      else if ltb_ℤ r.limits.max_order_size quantity
      then false
      else if ltb_ℤ price r.limits.min_quote_price_cents
          || ltb_ℤ r.limits.max_quote_price_cents price
      then false
      else if leb_ℤ r.limits.max_open_orders_per_market
          (get_or ticker (pos 0) r.cached_open_order_count)
      then false
      else position_test)
  unfolding check_order
  tests = refl

  -- check_order lets an order through exactly when trading is not halted and size, price, open
  -- orders and resulting position keep their limits.
  pub check_order_iff :
      (check_order r ticker side price quantity ≡ true) ↔ IsAllowed r ticker side price quantity
  check_order_iff = (
    λ h. ground (arith, tests, (abs_iff next (from_contracts r.limits.max_position_per_market)).0),
    λ a.
        ground
          (arith, tests, a, (abs_iff next (from_contracts r.limits.max_position_per_market)).1),
  )
