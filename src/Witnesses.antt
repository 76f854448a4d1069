-- ===== src/Witnesses.antt =====
-- The inputs of the concrete runs: two markets, one order manager, one book, an exchange that
-- confirms every cancellation. Prices and sums are whole numbers here.
pub mod Fills
pub mod Books
pub mod Accounts
pub mod Halts
pub mod Windows
pub mod Quotes
pub mod Runs
pub mod Scans
use kalshi_market_maker.Prelude.{ℤ, pos, negsuc, true, false, String, List, [], ◌∷◌, none, done}
use kalshi_market_maker.Float.Exact.{whole}
use kalshi_market_maker.Quantity.{from_centi}
use kalshi_market_maker.Types.{
  Side, buys_yes, buys_no, Order, Fill, PublicTrade, Orderbook, open_order, limit,
}
use kalshi_market_maker.Orders.{new_manager}
use kalshi_market_maker.Orders.History.{run_fills}
use kalshi_market_maker.Orders.Remote.{RestClient, Live}
use kalshi_market_maker.Orders.Implements.{order_manager}
use kalshi_market_maker.Iface.{OrderManagerIface}
use kalshi_market_maker.Risk.{RiskLimits, RiskManager, new_risk_manager}
use kalshi_market_maker.Flow.{FlowImbalanceConfig}
use kalshi_market_maker.Quoter.{QuoterConfig}
use kalshi_market_maker.Tape.{TradeTapeConfig, TradeTape}

abbrev pub fill : String → Side → ℤ → ℤ → Fill ℤ
fill id side price size = record {
  trade_id = id;
  order_id = "order";
  market_ticker = "KXA-B-1";
  side = side;
  price_cents = price;
  quantity = from_centi size;
  fee_cents = pos 1;
  is_taker = false;
  timestamp = pos 0;
}

-- Bought 3, the same fill again, then 5 of the other side.
abbrev pub three_fills : List (Fill ℤ)
three_fills =
    fill "t1" buys_yes (pos 40) (pos 300)
    ∷ fill "t1" buys_yes (pos 40) (pos 300)
    ∷ fill "t2" buys_no (pos 55) (pos 500)
    ∷ []

abbrev pub quotes : Orderbook
quotes = record {
  ticker = "KXA-B-1";
  yes_levels =
      (record { price_cents = pos 44; quantity = from_centi (pos 300) })
      ∷ (record { price_cents = pos 42; quantity = from_centi (pos 1000) })
      ∷ [];
  no_levels = record { price_cents = pos 53; quantity = from_centi (pos 700) } ∷ [];
}

abbrev pub order_of : String → String → Order
order_of id ticker = record {
  id = id;
  market_ticker = ticker;
  side = buys_yes;
  price_cents = pos 44;
  quantity = from_centi (pos 300);
  filled_quantity = from_centi (pos 0);
  status = open_order;
  kind = limit;
  created_at = pos 0;
  average_fill_price_cents = pos 0;
}

abbrev pub accepting : RestClient (Unit {0})
accepting = record {
  place_order = λ ticker side price size r. (done (order_of "o9" ticker), r);
  cancel_order = λ id r. (done true, r);
  amend_order = λ id ticker side price size r. (done none, r);
}

-- After the fills, with an order in each of two markets.
abbrev pub live : Live ℤ (Unit {0})
live = record {
  manager = record (run_fills three_fills new_manager) {
    open_orders =
        ("o1", order_of "o1" "KXA-B-1")
        ∷ ("o2", order_of "o2" "KXA-B-2")
        ∷ ("o3", order_of "o3" "KXA-B-1")
        ∷ [];
  };
  exchange = tt;
}

abbrev pub limits : RiskLimits ℤ
limits = record {
  max_position_per_market = pos 10;
  max_open_orders_per_market = pos 2;
  max_order_size = pos 5;
  daily_loss_limit = negsuc 99;
  max_total_exposure_dollars = pos 50;
  max_total_loss_dollars = negsuc 99;
  min_quote_price_cents = pos 5;
  max_quote_price_cents = pos 95;
  max_drawdown_dollars = pos 20;
}

abbrev pub fresh_risk : RiskManager ℤ
fresh_risk = new_risk_manager limits

abbrev pub manager_iface : OrderManagerIface ℤ (Live ℤ (Unit {0}))
manager_iface = order_manager accepting

abbrev pub guard : FlowImbalanceConfig ℤ
guard = record {
  window_seconds = pos 60;
  imbalance_ratio_threshold = pos 3;
  min_flow_volume = pos 5;
}

abbrev pub tape_config : TradeTapeConfig ℤ
tape_config = record { window_seconds = pos 300; own_fill_weight = pos 0 }

abbrev pub print_of : String → PublicTrade
print_of id = record {
  trade_id = id;
  market_ticker = "KXA-B-1";
  yes_price_cents = pos 44;
  quantity = from_centi (pos 100);
  taker_side = buys_yes;
  timestamp = pos 5_000_000_000;
}

abbrev pub empty_tape : TradeTape
empty_tape = record { prints_by_ticker = []; own_trade_ids = "t1" ∷ [] }

abbrev pub quoter_config : QuoterConfig ℤ
quoter_config = record {
  target_spread_cents = pos 4;
  reprice_threshold_cents = pos 1;
  quote_size = pos 3;
  imbalance_spread_cents = pos 2;
  min_spread_cents = pos 3;
  min_rest_ms = pos 3000;
  theo_jump_cents = pos 3;
  fade_rest_ms = pos 500;
  longshot_price_threshold_cents = pos 40;
  longshot_edge_cents = pos 1;
  fv_ema_alpha = pos 1;
  flow_lean_cents = pos 1;
  tape_half_life_seconds = pos 30;
  inventory_cap_lots = pos 2;
  unwind_edge_cents = pos 0;
  maker_fee_rate = pos 0;
}
