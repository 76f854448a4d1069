-- ===== src/Orders/Implements.antt =====
-- `OrderManager` as an implementation of its interface.
use kalshi_market_maker.Prelude.{Action, Bool}
use kalshi_market_maker.Float.{Double}
use kalshi_market_maker.Types.{Fill}
use kalshi_market_maker.Orders
use kalshi_market_maker.Orders.Reads
use kalshi_market_maker.Orders.Remote
use kalshi_market_maker.Orders.Remote.{RestClient, Live}
use kalshi_market_maker.Iface.{OrderManagerIface}

module _ {W R : Type 0} ⦃d : Double W⦄ (rest : RestClient R) where
  -- A fill touches the manager alone.
  abbrev record_fill_live : Fill W → Action (Live W R) Bool
  record_fill_live fill s =
      let (r, m) = Orders.record_fill fill s.manager in (r, record s { manager = m })

  abbrev pub order_manager : OrderManagerIface W (Live W R)
  order_manager = record {
    place = Remote.place rest;
    cancel = Remote.cancel rest;
    amend = Remote.amend rest;
    cancel_all = Remote.cancel_all rest;
    record_fill = record_fill_live;
    net_position = λ s. Reads.net_position s.manager;
    realized_pnl = λ s. Reads.realized_pnl s.manager;
    fees_paid = λ s. Reads.fees_paid s.manager;
    unrealized_pnl = λ s. Reads.unrealized_pnl s.manager;
    position_cost = λ s. Reads.position_cost s.manager;
    exposure_decomposition = λ s. Reads.exposure_decomposition s.manager;
    open_orders = λ s. s.manager.open_orders;
  }
