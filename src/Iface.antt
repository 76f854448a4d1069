-- ===== src/Iface.antt =====
-- source/engine/order_manager_iface.hpp and source/engine/strategy.hpp: the interfaces between the
-- layers. `S` is the state behind the order manager, the exchange included.
use kalshi_market_maker.Prelude.{ℤ, Bool, String, Dict, Option, Action}
use kalshi_market_maker.Quantity.{Quantity}
use kalshi_market_maker.Types.{Side, Order, Fill, Orderbook}
use kalshi_market_maker.Orders.Reads.{ExposureDecomposition}

pub record OrderManagerIface (W S : Type 0) : Type 0 where
  pub place : String → Side → ℤ → ℤ → Action S Order
  pub cancel : String → Action S Bool
  pub amend : String → String → Side → ℤ → Quantity → Action S (Option String)
  pub cancel_all : String → Action S (Unit {0})
  pub record_fill : Fill W → Action S Bool
  pub net_position : S → String → Quantity
  pub realized_pnl : S → String → W
  pub fees_paid : S → String → W
  pub unrealized_pnl : S → String → ℤ → W
  pub position_cost : S → String → W
  pub exposure_decomposition : S → String → ExposureDecomposition W
  pub open_orders : S → Dict Order

-- `IStrategy`, over a state `S` that holds the strategy and what it drives.
pub record StrategyIface (S : Type 0) : Type 0 where
  pub update : String → Orderbook → Action S (Unit {0})
  pub forget_order : String → String → Action S (Unit {0})
  pub forget_ticker : String → Action S (Unit {0})
  pub reset_quotes : Action S (Unit {0})
  pub set_reduce_only : Bool → Action S (Unit {0})
