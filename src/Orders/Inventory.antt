-- ===== src/Orders/Inventory.antt =====
-- The inventory of a market: net position, lots, and how a fill changes them.
use kalshi_market_maker.Prelude.{
  ap, pos_part, neg_part, ℤ, pos, ◌+ℤ◌, ◌-ℤ◌, ◌<ℤ◌, neg, List, [], String, Dict, ◌≡◌, refl, ◌⊎◌,
  inl, inr, arith, All, true, false, Bool-cases, int_laws, get_or, get_or-insert, str_eq,
}
use kalshi_market_maker.Float.{Double}
use kalshi_market_maker.Quantity
use kalshi_market_maker.Quantity.{Quantity, zero_quantity}
use kalshi_market_maker.Types.{Side, buys_yes, buys_no, Fill}
use kalshi_market_maker.Orders.{
  Manager, Lot, book_lots, apply_fill, settle_lots, push_remaining, lots_at, signed_quantity,
}
use kalshi_market_maker.Orders.Loop.{IsOpenLot, total}
use kalshi_market_maker.Orders.Settling.{settled_side}

-- The inventory of one market balances its net position: all lots are positive, only one side
-- holds any, and the position is YES lots less NO lots.
pub record IsBalanced (net : ℤ) (yes_side no_side : List Lot) : Type 0 where
  pub yes_open : All IsOpenLot yes_side
  pub no_open : All IsOpenLot no_side
  pub one_sided : (yes_side ≡ []) ⊎ (no_side ≡ [])
  pub balanced : net ≡ total yes_side -ℤ total no_side

abbrev pub position_of : {W : Type 0} → Manager W → String → ℤ
position_of m t = (get_or t zero_quantity m.net_positions).centi

abbrev pub IsBalancedManager : {W : Type 0} → Manager W → Type 0
IsBalancedManager m =
    (t : String) → IsBalanced (position_of m t) (lots_at t m.yes_lots) (lots_at t m.no_lots)

module _ {W : Type 0} ⦃d : Double W⦄ (fill : Fill W) where
  swap_sides : {A B : Type 0} → A ⊎ B → B ⊎ A
  swap_sides (inl a) = inr a
  swap_sides (inr b) = inl b

  yes_fill-IsBalanced :
      (net : ℤ) (yes_side no_side : List Lot) (spreads : Dict W)
      → pos 0 <ℤ fill.quantity.centi
      → IsBalanced net yes_side no_side
      → let after = settle_lots fill no_side spreads in
        IsBalanced
          (net +ℤ fill.quantity.centi)
          (push_remaining fill after.remaining yes_side)
          after.opposing
  yes_fill-IsBalanced net yes_side no_side spreads q v =
      let (same, other, one, moved) =
        settled_side fill yes_side no_side spreads q v.yes_open v.no_open v.one_sided in
      record {
        yes_open = same;
        no_open = other;
        one_sided = one;
        balanced = omega (
          int_laws,
          ap pos_part moved,
          ap neg_part moved,
          ap pos_part v.balanced,
          ap neg_part v.balanced,
        );
      }

  no_fill-IsBalanced :
      (net : ℤ) (yes_side no_side : List Lot) (spreads : Dict W)
      → pos 0 <ℤ fill.quantity.centi
      → IsBalanced net yes_side no_side
      → let after = settle_lots fill yes_side spreads in
        IsBalanced
          (net +ℤ neg fill.quantity.centi)
          after.opposing
          (push_remaining fill after.remaining no_side)
  no_fill-IsBalanced net yes_side no_side spreads q v =
      let (same, other, one, moved) =
        settled_side fill no_side yes_side spreads q v.no_open v.yes_open
          (swap_sides v.one_sided) in
      record {
        yes_open = other;
        no_open = same;
        one_sided = swap_sides one;
        balanced = omega (
          int_laws,
          ap pos_part moved,
          ap neg_part moved,
          ap pos_part v.balanced,
          ap neg_part v.balanced,
        );
      }

  -- What a fill leaves of a market: the position, the YES lots and the NO lots.
  abbrev pub Holds : ℤ → List Lot → List Lot → Manager W → String → Type 0
  Holds net yes_side no_side m t =
      (position_of m t ≡ net) × (lots_at t m.yes_lots ≡ yes_side) × (lots_at t m.no_lots ≡ no_side)

  IsBalanced-of :
      (m : Manager W) (t : String) (net : ℤ) (yes_side no_side : List Lot)
      → Holds net yes_side no_side m t
      → IsBalanced net yes_side no_side
      → IsBalanced (position_of m t) (lots_at t m.yes_lots) (lots_at t m.no_lots)
  IsBalanced-of m t net yes_side no_side (p, y, n) v = rw (p, y, n) v

  module _ (m : Manager W) (t : String) where
    abbrev pub u : String
    u = fill.market_ticker

    pub elsewhere :
        str_eq u t ≡ false
        → Holds (position_of m t) (lots_at t m.yes_lots) (lots_at t m.no_lots) (apply_fill fill m) t
    unfolding apply_fill book_lots
    elsewhere h = ground (
      arith,
      get_or-insert u t
          (Quantity.add (get_or u zero_quantity m.net_positions)
            (signed_quantity fill.side fill.quantity))
          zero_quantity m.net_positions,
      get_or-insert u t
          (push_remaining fill (settle_lots fill (lots_at u m.no_lots) m.realized_spreads).remaining
            (lots_at u m.yes_lots))
          [] m.yes_lots,
      get_or-insert u t (settle_lots fill (lots_at u m.no_lots) m.realized_spreads).opposing []
          m.no_lots,
      get_or-insert u t
          (push_remaining fill
            (settle_lots fill (lots_at u m.yes_lots) m.realized_spreads).remaining
            (lots_at u m.no_lots))
          [] m.no_lots,
      get_or-insert u t (settle_lots fill (lots_at u m.yes_lots) m.realized_spreads).opposing []
          m.yes_lots,
    )

    pub bought_yes :
        str_eq u t ≡ true
        → fill.side ≡ buys_yes
        → let after = settle_lots fill (lots_at u m.no_lots) m.realized_spreads in
          Holds
            (position_of m u +ℤ fill.quantity.centi)
            (push_remaining fill after.remaining (lots_at u m.yes_lots))
            after.opposing
            (apply_fill fill m)
            t
    unfolding apply_fill book_lots
    bought_yes h e = ground (
      arith,
      get_or-insert u t
          (Quantity.add (get_or u zero_quantity m.net_positions)
            (signed_quantity fill.side fill.quantity))
          zero_quantity m.net_positions,
      get_or-insert u t
          (push_remaining fill (settle_lots fill (lots_at u m.no_lots) m.realized_spreads).remaining
            (lots_at u m.yes_lots))
          [] m.yes_lots,
      get_or-insert u t (settle_lots fill (lots_at u m.no_lots) m.realized_spreads).opposing []
          m.no_lots,
    )

    pub bought_no :
        str_eq u t ≡ true
        → fill.side ≡ buys_no
        → let after = settle_lots fill (lots_at u m.yes_lots) m.realized_spreads in
          Holds
            (position_of m u +ℤ neg fill.quantity.centi)
            after.opposing
            (push_remaining fill after.remaining (lots_at u m.no_lots))
            (apply_fill fill m)
            t
    unfolding apply_fill book_lots
    bought_no h e = ground (
      arith,
      get_or-insert u t
          (Quantity.add (get_or u zero_quantity m.net_positions)
            (signed_quantity fill.side fill.quantity))
          zero_quantity m.net_positions,
      get_or-insert u t
          (push_remaining fill
            (settle_lots fill (lots_at u m.yes_lots) m.realized_spreads).remaining
            (lots_at u m.no_lots))
          [] m.no_lots,
      get_or-insert u t (settle_lots fill (lots_at u m.yes_lots) m.realized_spreads).opposing []
          m.yes_lots,
    )

  pub side_cases : (side : Side) → (side ≡ buys_yes) ⊎ (side ≡ buys_no)
  side_cases buys_yes = inl refl
  side_cases buys_no = inr refl

  -- A fill of a positive quantity keeps every market balanced.
  pub apply_fill-IsBalanced :
      (m : Manager W)
      → pos 0 <ℤ fill.quantity.centi
      → IsBalancedManager m
      → IsBalancedManager (apply_fill fill m)
  apply_fill-IsBalanced m q v t = elim (Bool-cases (str_eq fill.market_ticker t)) [
    | inr other ↦ IsBalanced-of (apply_fill fill m) t _ _ _ (elsewhere m t other) (v t)
    | inl same ↦ elim (side_cases fill.side) [
      | inl e ↦
          IsBalanced-of (apply_fill fill m) t _ _ _ (bought_yes m t same e)
            (yes_fill-IsBalanced _ _ _ m.realized_spreads q (v fill.market_ticker))
      | inr e ↦
          IsBalanced-of (apply_fill fill m) t _ _ _ (bought_no m t same e)
            (no_fill-IsBalanced _ _ _ m.realized_spreads q (v fill.market_ticker))
    ]
  ]
