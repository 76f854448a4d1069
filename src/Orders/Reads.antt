-- ===== src/Orders/Reads.antt =====
-- The queries of `OrderManager` and the decomposition of a position.
use kalshi_market_maker.Prelude.{
  ℤ, pos, ◌+ℤ◌, ◌-ℤ◌, leb_ℤ, String, List, [], ◌∷◌, if◌then◌else◌, get_or, ◌≡◌, refl, sym, ◌∙◌,
  +ℤ_assoc, +ℤ_parts, false, ◌⊎◌, arith, int_laws, inl, inr, ap, zero_+ℤ,
}
use kalshi_market_maker.Float.{Double}
use kalshi_market_maker.Quantity
use kalshi_market_maker.Quantity.{Quantity, zero_quantity, contracts}
use kalshi_market_maker.Orders.{Manager, Lot, lots_at, contract_max_cents}
use kalshi_market_maker.Orders.Loop.{total}
use kalshi_market_maker.Orders.Inventory.{IsBalanced, IsBalancedManager}
use kalshi_market_maker.Orders.Settling.{total_nonneg}

-- `ExposureDecomposition`
pub record ExposureDecomposition (W : Type 0) : Type 0 where
  pub spread_capture_cents : W
  pub net_inventory : Quantity
  pub e_win_cents : W
  pub e_loss_cents : W

unfoldable pub net_position : {W : Type 0} → Manager W → String → Quantity
net_position m ticker = get_or ticker zero_quantity m.net_positions

-- The contracts that `sum_side` of `exposure_decomposition` adds up.
sum_quantity : Quantity → List Lot → Quantity
sum_quantity q [] = q
sum_quantity q (l ∷ ls) = sum_quantity (Quantity.add q l.remaining) ls

sum_quantity-total :
    (q : Quantity) (ls : List Lot) → (sum_quantity q ls).centi ≡ q.centi +ℤ total ls
unfolding sum_quantity
sum_quantity-total q [] = omega int_laws
sum_quantity-total q (l ∷ ls) =
    sum_quantity-total (Quantity.add q l.remaining) ls
    ∙ +ℤ_assoc q.centi l.remaining.centi (total ls)

module _ {W : Type 0} ⦃d : Double W⦄ where
  open d use {of_int, add, sub, mul, negate}

  abbrev nought : W
  nought = of_int (pos 0)

  unfoldable pub fees_paid : Manager W → String → W
  fees_paid m ticker = get_or ticker nought m.fees

  unfoldable pub realized_spread : Manager W → String → W
  realized_spread m ticker = get_or ticker nought m.realized_spreads

  unfoldable pub realized_pnl : Manager W → String → W
  unfolding realized_spread fees_paid
  realized_pnl m ticker = sub (realized_spread m ticker) (fees_paid m ticker)

  -- The loop over one side's lots, marked at a price.
  mark_lots : ℤ → W → List Lot → W
  mark_lots mark sum [] = sum
  mark_lots mark sum (l ∷ ls) =
      mark_lots mark (add sum (mul (of_int (mark -ℤ l.price_cents)) (contracts l.remaining))) ls

  -- A missing side has no lots.
  unfoldable pub unrealized_pnl : Manager W → String → ℤ → W
  unfolding mark_lots
  unrealized_pnl m ticker yes_mid =
      mark_lots (contract_max_cents -ℤ yes_mid)
        (mark_lots yes_mid nought (lots_at ticker m.yes_lots)) (lots_at ticker m.no_lots)

  cost_lots : W → List Lot → W
  cost_lots cost [] = cost
  cost_lots cost (l ∷ ls) =
      cost_lots (add cost (mul (of_int l.price_cents) (contracts l.remaining))) ls

  unfoldable pub position_cost : Manager W → String → W
  unfolding cost_lots
  position_cost m ticker =
      cost_lots (cost_lots nought (lots_at ticker m.yes_lots)) (lots_at ticker m.no_lots)

  unfoldable pub exposure_decomposition : Manager W → String → ExposureDecomposition W
  unfolding sum_quantity cost_lots realized_spread
  exposure_decomposition m ticker =
      let yes_side = lots_at ticker m.yes_lots in
      let no_side = lots_at ticker m.no_lots in
      let yes_qty = sum_quantity zero_quantity yes_side in
      let no_qty = sum_quantity zero_quantity no_side in
      let held_qty = if Quantity.le no_qty yes_qty then yes_qty else no_qty in
      let held_cost =
        if Quantity.le no_qty yes_qty
        then cost_lots nought yes_side
        else cost_lots nought no_side in
      record {
        spread_capture_cents = realized_spread m ticker;
        net_inventory = Quantity.sub yes_qty no_qty;
        e_win_cents = sub (mul (contracts held_qty) (of_int contract_max_cents)) held_cost;
        e_loss_cents = negate held_cost;
      }

  held_cost-position_cost :
      (net : ℤ) (yes_side no_side : List Lot)
      → IsBalanced net yes_side no_side
      → (if leb_ℤ (total no_side) (total yes_side)
          then cost_lots nought yes_side
          else cost_lots nought no_side)
        ≡ cost_lots (cost_lots nought yes_side) no_side
  held_cost-position_cost net yes_side [] v =
      let n = total_nonneg yes_side v.yes_open in unfold cost_lots in ground arith
  held_cost-position_cost net [] (l ∷ no_side) v =
      let n = total_nonneg no_side v.no_open.1 in
      let more : leb_ℤ (total (l ∷ no_side)) (pos 0) ≡ false =
        ground (arith, +ℤ_parts l.remaining.centi (total no_side), v.no_open.0) in
      rw more (unfold cost_lots in refl)
  held_cost-position_cost net (k ∷ yes_side) (l ∷ no_side) v = absurd (both_sides v.one_sided)
    where
      both_sides : ((k ∷ yes_side) ≡ []) ⊎ ((l ∷ no_side) ≡ []) → ⊥
      both_sides (inl e) = cc
      both_sides (inr e) = cc

  -- For a balanced manager the exposure decomposition has the net position as inventory and
  -- the negated cost of the position as loss.
  pub exposure_agrees :
      (m : Manager W) (t : String)
      → IsBalancedManager m
      → let e = exposure_decomposition m t in
        (e.net_inventory.centi ≡ (net_position m t).centi)
        × (e.e_loss_cents ≡ negate (position_cost m t))
  unfolding exposure_decomposition net_position position_cost
  exposure_agrees m t v =
      let b = v t in
      let y =
        sum_quantity-total zero_quantity (lots_at t m.yes_lots)
        ∙ zero_+ℤ (total (lots_at t m.yes_lots)) in
      let n =
        sum_quantity-total zero_quantity (lots_at t m.no_lots)
        ∙ zero_+ℤ (total (lots_at t m.no_lots)) in
      (rw (y, n) (sym b.balanced), rw (y, n) (ap negate (held_cost-position_cost _ _ _ b)))
