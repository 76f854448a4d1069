-- ===== src/Session/Safety.antt =====
-- The safety nets of source/engine/trading_session.cpp: cancelling everything, dead feeds, idle
-- markets, orders of an earlier run, and dropping a market.
use kalshi_market_maker.Prelude.{
  ℤ, Bool, true, false, not, ◌||◌, String, List, [], ◌∷◌, if◌then◌else◌, Dict, erase, contains,
  done, Action, pure, ◌>>=◌, ◌>>◌, try_catch, for_each,
}
use kalshi_market_maker.Quantity
use kalshi_market_maker.Types.{Order, Orderbook}
use kalshi_market_maker.Risk.{is_halted}
use kalshi_market_maker.Iface.{OrderManagerIface, StrategyIface}
use kalshi_market_maker.Session.{
  World, TradingSession, remove_all, add_member, rests_on, is_tracked, feed_confirmed, cools_down,
  on_orders, on_world,
}
use kalshi_market_maker.Session.Feed.{try_update}

module _ {W Q X : Type 0} (om : OrderManagerIface W X) where
  abbrev open_orders : TradingSession W Q X → Dict Order
  open_orders s = om.open_orders s.world.orders

  -- `try { order_mgr_.cancel_all(ticker); }`: a failure is only logged.
  unfoldable pub cancel_market : String → Action (TradingSession W Q X) (Unit {0})
  cancel_market ticker = try_catch (on_orders (om.cancel_all ticker)) (pure tt)

  unfoldable pub cancel_order_quietly : Order → Action (TradingSession W Q X) (Unit {0})
  cancel_order_quietly order = try_catch (on_orders (om.cancel order.id) >>= λ _. pure tt) (pure tt)

  unfoldable pub cancel_preexisting_orders : List Order → Action (TradingSession W Q X) (Unit {0})
  unfolding cancel_order_quietly
  cancel_preexisting_orders resting_orders = for_each resting_orders cancel_order_quietly

  unfoldable pub remove_market_if_idle : String → TradingSession W Q X → Bool × TradingSession W Q X
  unfolding rests_on remove_all
  remove_market_if_idle ticker s =
      if not (is_tracked s ticker)
      then (false, s)
      else if not (Quantity.is_zero (om.net_position s.world.orders ticker))
      then (false, s)
      else if rests_on ticker (open_orders s)
      then (false, s)
      else (
        true,
        record s {
          tickers = remove_all ticker s.tickers;
          ob_map = erase ticker s.ob_map;
          last_book_update = erase ticker s.last_book_update;
        },
      )

  module _ (strategy : StrategyIface (World W Q X)) where
    unfoldable pub cancel_all_quotes : Action (TradingSession W Q X) (Unit {0})
    unfolding cancel_market
    cancel_all_quotes s =
        (elim (open_orders s) as (λ _. Action (TradingSession W Q X) (Unit {0})) [
          | [] ↦ pure tt
          | ◌∷◌ _ _ ↦ for_each s.tickers cancel_market
        ]
            >> on_world strategy.reset_quotes)
          s

    unfoldable pub on_disconnect : Action (TradingSession W Q X) (Unit {0})
    on_disconnect = cancel_all_quotes

    -- One round of the loop of `requote_idle_markets`; the two readings are those of this market.
    unfoldable pub requote_idle :
        (String → ℤ × ℤ × ℤ) → String × Orderbook → Action (TradingSession W Q X) (Unit {0})
    requote_idle clock (ticker, book) s =
        let (confirmed_at, checked, failed) = clock ticker in
        if not (feed_confirmed s ticker confirmed_at)
          || (rests_on ticker (open_orders s) || cools_down s ticker checked)
        then (done tt, s)
        else try_update strategy ticker book failed s

    unfoldable pub requote_idle_markets :
        (String → ℤ × ℤ × ℤ) → Action (TradingSession W Q X) (Unit {0})
    unfolding requote_idle
    requote_idle_markets clock s =
        if is_halted s.world.risk then (done tt, s) else for_each s.ob_map (requote_idle clock) s

    -- One round of the loop of `enforce_quote_safety`.
    unfoldable pub check_feed : (String → ℤ) → String → Action (TradingSession W Q X) (Unit {0})
    check_feed clock ticker s =
        if feed_confirmed s ticker (clock ticker) || contains ticker s.feed_dead
        then (done tt, s)
        else (cancel_market ticker >> on_world (strategy.forget_ticker ticker))
            (record s { feed_dead = add_member ticker s.feed_dead })

    unfoldable pub enforce_quote_safety : (String → ℤ) → Action (TradingSession W Q X) (Unit {0})
    unfolding check_feed
    enforce_quote_safety clock s =
        if is_halted s.world.risk
        then cancel_all_quotes s
        else for_each s.tickers (check_feed clock) s
