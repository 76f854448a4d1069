-- ===== src/Session/Events.antt =====
-- What reaches source/engine/trading_session.cpp from outside: the events, the handler of each, and
-- the states a session runs through.
use kalshi_market_maker.Prelude.{ℤ, String, List, Action, pure, ◌>>=◌, with_panic_handler}
use kalshi_market_maker.Float.{Double}
use kalshi_market_maker.Quantity.{Quantity}
use kalshi_market_maker.Types.{Side, Order, Orderbook, Fill, PublicTrade}
use kalshi_market_maker.Iface.{OrderManagerIface, StrategyIface}
use kalshi_market_maker.Session.{World, TradingSession, change}
use kalshi_market_maker.Session.Feed.{on_snapshot, on_delta, on_trade, seed_orderbook, add_market}
use kalshi_market_maker.Session.Trades.{on_fill, record_flatten}
use kalshi_market_maker.Session.Safety.{
  cancel_preexisting_orders, remove_market_if_idle, cancel_all_quotes, on_disconnect,
  requote_idle_markets, enforce_quote_safety,
}
use kalshi_market_maker.Session.Reports.{run_portfolio_risk}

-- One constructor for each call of the host, with the clock readings it causes.
pub data Event (W : Type 0) : Type 0 where
  snapshot_received : Orderbook → ℤ → Event W
  delta_received : String → Side → ℤ → Quantity → ℤ × ℤ × ℤ → Event W
  trade_received : PublicTrade → Event W
  fill_received : Fill W → Event W
  flattened : Order → Event W
  disconnected : Event W
  quotes_cancelled : Event W
  market_seeded : Orderbook → ℤ → Event W
  market_added : Orderbook → ℤ → Event W
  market_dropped : String → Event W
  orders_found : List Order → Event W
  idle_checked : (String → ℤ × ℤ × ℤ) → Event W
  safety_checked : (String → ℤ) → Event W
  portfolio_checked : Event W

module _ {W Q X : Type 0} ⦃d : Double W⦄ (om : OrderManagerIface W X)
    (strategy : StrategyIface (World W Q X)) where
  unfoldable pub dispatch : Event W → Action (TradingSession W Q X) (Unit {0})
  dispatch (snapshot_received book now) = change (on_snapshot book now)
  dispatch (delta_received ticker side price_cents qty clock) =
      on_delta strategy ticker side price_cents qty clock
  dispatch (trade_received trade) = change (on_trade trade)
  dispatch (fill_received fill) = on_fill om strategy fill >>= λ _. pure tt
  dispatch (flattened order) = record_flatten om order
  dispatch disconnected = on_disconnect om strategy
  dispatch quotes_cancelled = cancel_all_quotes om strategy
  dispatch (market_seeded book now) = seed_orderbook strategy book now
  dispatch (market_added book now) = add_market strategy book now
  dispatch (market_dropped ticker) = change (λ s. (remove_market_if_idle om ticker s).1)
  dispatch (orders_found orders) = cancel_preexisting_orders om orders
  dispatch (idle_checked clock) = requote_idle_markets om strategy clock
  dispatch (safety_checked clock) = enforce_quote_safety om strategy clock
  dispatch portfolio_checked = run_portfolio_risk om

  -- The call, and `cancel_all_quotes` as the panic handler that source/app/main.cpp registers.
  unfoldable pub handle : Event W → Action (TradingSession W Q X) (Unit {0})
  unfolding dispatch
  handle e = with_panic_handler (cancel_all_quotes om strategy) (dispatch e)

  -- The states after any number of events, in any order.
  pub data Reach (s : TradingSession W Q X) : TradingSession W Q X → Type 0 where
    here : Reach s s
    next : {t : TradingSession W Q X} (e : Event W) → Reach s t → Reach s (handle e t).1
