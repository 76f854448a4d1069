-- ===== src/Types.antt =====
-- source/core/types.hpp: the data that the components exchange. A time point is its count of clock
-- ticks, an `int` an unbounded integer.
use kalshi_market_maker.Prelude.{ℤ, pos, ◌-ℤ◌, leb_ℤ, Bool, ◌&&◌, true, false, String, List}
use kalshi_market_maker.Quantity
use kalshi_market_maker.Quantity.{Quantity}

pub data Side : Type 0 where
  buys_yes buys_no : Side

pub data OrderStatus : Type 0 where
  open_order partially_filled filled cancelled : OrderStatus

pub data OrderType : Type 0 where
  limit market : OrderType

pub record Level : Type 0 where
  pub price_cents : ℤ
  pub quantity : Quantity

-- Both sides sorted descending by price.
pub record Orderbook : Type 0 where
  pub ticker : String
  pub yes_levels : List Level
  pub no_levels : List Level

pub record Order : Type 0 where
  pub id : String
  pub market_ticker : String
  pub side : Side
  pub price_cents : ℤ
  pub quantity : Quantity
  pub filled_quantity : Quantity
  pub status : OrderStatus
  pub kind : OrderType
  pub created_at : ℤ
  pub average_fill_price_cents : ℤ

abbrev pub remaining_quantity : Order → Quantity
remaining_quantity o = Quantity.sub o.quantity o.filled_quantity

abbrev pub is_active : Order → Bool
is_active o = elim o.status [ open_order ↦ true | partially_filled ↦ true | _ ↦ false ]

pub record Fill (W : Type 0) : Type 0 where
  pub trade_id : String
  pub order_id : String
  pub market_ticker : String
  pub side : Side
  pub price_cents : ℤ
  pub quantity : Quantity
  pub fee_cents : W
  pub is_taker : Bool
  pub timestamp : ℤ

-- `MarketPosition`: the fields that the reconciliation reads.
pub record MarketPosition : Type 0 where
  pub ticker : String
  pub position : Quantity

pub record PublicTrade : Type 0 where
  pub trade_id : String
  pub market_ticker : String
  pub yes_price_cents : ℤ
  pub quantity : Quantity
  pub taker_side : Side
  pub timestamp : ℤ

abbrev pub min_price_cents : ℤ
min_price_cents = pos 1

abbrev pub max_price_cents : ℤ
max_price_cents = pos 99

abbrev pub price_basis : ℤ
price_basis = pos 100

abbrev pub is_valid_price : ℤ → Bool
is_valid_price p = leb_ℤ min_price_cents p && leb_ℤ p max_price_cents

abbrev pub complement_price : ℤ → ℤ
complement_price p = price_basis -ℤ p
