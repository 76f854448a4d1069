-- ===== src/Orders.antt =====
-- source/exchange/order_manager.cpp: `OrderManager`, the life of our orders and the inventory of
-- lots. The REST client behind it is an interface, with the state of the exchange in `R`.
pub mod Loop
pub mod Reads
pub mod Remote
pub mod Settling
pub mod Inventory
pub mod Fills
pub mod History
pub mod Cancelling
pub mod Implements
pub mod Clearing
use Prim.Native.String.{◌++◌}
use kalshi_market_maker.Prelude.{
  ℕ, zero, suc, ℤ, pos, ◌+ℤ◌, ◌-ℤ◌, ltb_ℤ, eqb_ℤ, Bool, true, false, not, ◌&&◌, String, List, [],
  ◌∷◌, Option, none, some, if◌then◌else◌, Dict, lookup, insert, erase, get_or, contains, str_eq,
  length, Outcome, done, panicked, Action, ensure, ◌>>◌, to_string,
}
use mathlib.Core.List
use kalshi_market_maker.Float.{Double}
use kalshi_market_maker.Quantity
use kalshi_market_maker.Quantity.{Quantity, zero_quantity, contracts}
use kalshi_market_maker.Types.{
  Side, buys_yes, buys_no, Order, Fill, filled, partially_filled, is_valid_price,
}

abbrev pub contract_max_cents : ℤ
contract_max_cents = pos 100

pub record Lot : Type 0 where
  pub price_cents : ℤ
  pub remaining : Quantity

-- The fields of `OrderManager` but for the reference to the client.
pub record Manager (W : Type 0) : Type 0 where
  pub open_orders : Dict Order
  pub net_positions : Dict Quantity
  pub realized_spreads : Dict W
  pub fees : Dict W
  pub yes_lots : Dict (List Lot)
  pub no_lots : Dict (List Lot)
  pub seen_fills : List String

abbrev pub new_manager : {W : Type 0} → Manager W
new_manager = record {
  open_orders = [];
  net_positions = [];
  realized_spreads = [];
  fees = [];
  yes_lots = [];
  no_lots = [];
  seen_fills = [];
}

-- The variables of the matching loop of `record_fill`.
pub record Matching (W : Type 0) : Type 0 where
  pub remaining : Quantity
  pub opposing : List Lot
  pub spreads : Dict W

unfoldable pub fill_key : {W : Type 0} → Fill W → String
fill_key f = if str_eq f.trade_id "" then f.order_id ++ "@" ++ to_string f.timestamp else f.trade_id

abbrev pub lots_at : String → Dict (List Lot) → List Lot
lots_at ticker lots = get_or ticker [] lots

abbrev pub signed_quantity : Side → Quantity → Quantity
signed_quantity buys_yes q = q
signed_quantity buys_no q = Quantity.negated q

module _ {W : Type 0} ⦃d : Double W⦄ where
  -- `m[k] += x`
  abbrev pub add_to : String → W → Dict W → Dict W
  add_to k x m = insert k (d.add (get_or k (d.of_int (pos 0)) m) x) m

  -- One round of the loop, against the oldest opposing lot.
  unfoldable pub match_front : String → ℤ → Quantity → Lot → List Lot → Dict W → Matching W
  match_front ticker price remaining front rest spreads =
      let matched = Quantity.min remaining front.remaining in
      let left = Quantity.sub front.remaining matched in
      record {
        remaining = Quantity.sub remaining matched;
        opposing = if Quantity.is_zero left then rest else record front { remaining = left } ∷ rest;
        spreads =
            add_to ticker
              (d.mul (d.of_int (contract_max_cents -ℤ price -ℤ front.price_cents))
                (contracts matched))
              spreads;
      }

  -- `while (remaining.is_positive() && !opposing_inventory.empty())`
  unfoldable pub match_lots : ℕ → String → ℤ → Quantity → List Lot → Dict W → Matching W
  match_lots zero ticker price r lots spreads = record {
    remaining = r;
    opposing = lots;
    spreads = spreads;
  }
  match_lots (suc fuel) ticker price r [] spreads = record {
    remaining = r;
    opposing = [];
    spreads = spreads;
  }
  match_lots (suc fuel) ticker price r (front ∷ rest) spreads = elim (Quantity.is_positive r) [
    | false ↦ record { remaining = r; opposing = front ∷ rest; spreads = spreads }
    | true ↦
        let m = match_front ticker price r front rest spreads in
        match_lots fuel ticker price m.remaining m.opposing m.spreads
  ]

  -- What remains of a fill after the matching becomes the youngest lot of its own side.
  abbrev pub push_remaining : Fill W → Quantity → List Lot → List Lot
  push_remaining fill remaining lots =
      if Quantity.is_positive remaining
      then List.◌++◌ lots (record { price_cents = fill.price_cents; remaining = remaining } ∷ [])
      else lots

  -- The matching of a fill: the loop, on fuel that covers the opposing lots.
  unfoldable pub settle_lots : Fill W → List Lot → Dict W → Matching W
  settle_lots fill opposing spreads =
      match_lots (suc (length opposing)) fill.market_ticker fill.price_cents fill.quantity opposing
        spreads

  -- The inventory and the spread after a fill.
  unfoldable pub book_lots : Fill W → Side → Manager W → Manager W
  book_lots fill buys_yes m =
      let t = fill.market_ticker in
      let settled = settle_lots fill (lots_at t m.no_lots) m.realized_spreads in
      record m {
        realized_spreads = settled.spreads;
        no_lots = insert t settled.opposing m.no_lots;
        yes_lots =
            insert t (push_remaining fill settled.remaining (lots_at t m.yes_lots)) m.yes_lots;
      }
  book_lots fill buys_no m =
      let t = fill.market_ticker in
      let settled = settle_lots fill (lots_at t m.yes_lots) m.realized_spreads in
      record m {
        realized_spreads = settled.spreads;
        yes_lots = insert t settled.opposing m.yes_lots;
        no_lots = insert t (push_remaining fill settled.remaining (lots_at t m.no_lots)) m.no_lots;
      }

  -- The order that was filled, if it is still open.
  unfoldable pub fill_order : Fill W → Dict Order → Dict Order
  fill_order fill orders = elim (lookup fill.order_id orders) [
    | none ↦ orders
    | some order ↦
        let total = Quantity.add order.filled_quantity fill.quantity in
        if Quantity.le order.quantity total
        then erase fill.order_id orders
        else insert fill.order_id
            (record order { filled_quantity = total; status = partially_filled }) orders
  ]

  -- `record_fill` behind its two `ensure`s and the duplicate check.
  unfoldable pub apply_fill : Fill W → Manager W → Manager W
  apply_fill fill m =
      let t = fill.market_ticker in
      let booked = book_lots fill fill.side m in
      record booked {
        net_positions =
            insert t
              (Quantity.add (get_or t zero_quantity m.net_positions)
                (signed_quantity fill.side fill.quantity))
              m.net_positions;
        fees = add_to t fill.fee_cents m.fees;
        open_orders = fill_order fill m.open_orders;
        seen_fills = fill_key fill ∷ m.seen_fills;
      }

  abbrev pub record_new_fill : Fill W → Action (Manager W) Bool
  record_new_fill fill m =
      if contains (fill_key fill) m.seen_fills
      then (done false, m)
      else (done true, apply_fill fill m)

  -- A failed `ensure` leaves all code here; the panic handler takes the state from there
  -- (with_panic_handler in Prelude/Outcomes.antt, wrapped around every event in Session/Events.antt).
  unfoldable pub record_fill : Fill W → Action (Manager W) Bool
  record_fill fill =
      ensure (is_valid_price fill.price_cents)
      >> (ensure (Quantity.is_positive fill.quantity) >> record_new_fill fill)
