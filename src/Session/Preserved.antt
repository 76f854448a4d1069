-- ===== src/Session/Preserved.antt =====
-- The fills, the safety nets and the whole event loop of source/engine/trading_session.cpp, as single
-- writes and calls.
use kalshi_market_maker.Prelude.{
  ℤ, Bool, true, false, not, ◌||◌, String, List, [], ◌∷◌, if◌then◌else◌, ◌≡◌, refl, has_key,
  contains, done, Action, pure, ◌>>=◌, ◌>>◌, for_each,
}
use kalshi_market_maker.Float.{Double}
use kalshi_market_maker.Quantity
use kalshi_market_maker.Quantity.{Quantity}
use kalshi_market_maker.Types.{Order, Orderbook, Fill}
use kalshi_market_maker.Risk.{is_halted}
use kalshi_market_maker.Iface.{OrderManagerIface, StrategyIface}
use kalshi_market_maker.Session.{
  World, TradingSession, add_member, rests_on, is_tracked, feed_confirmed, cools_down, on_orders,
  change, on_world,
}
use kalshi_market_maker.Session.Trades.{
  mark_own, notify, flatten_fill, record_flatten, settle_fill, after_fill, on_fill,
}
use kalshi_market_maker.Session.Safety.{
  cancel_market, cancel_order_quietly, cancel_preexisting_orders, cancel_all_quotes, on_disconnect,
  requote_idle, requote_idle_markets, check_feed, enforce_quote_safety,
}
use kalshi_market_maker.Session.Reports.{run_portfolio_risk, portfolio_snapshot}
use kalshi_market_maker.Session.Events.{
  Event, dispatch, handle, Reach, here, next, snapshot_received, delta_received, trade_received,
  fill_received, flattened, disconnected, quotes_cancelled, market_seeded, market_added,
  market_dropped, orders_found, idle_checked, safety_checked, portfolio_checked,
}
use kalshi_market_maker.Session.Kept.{
  Keeps, bind-Keeps, try_catch-Keeps, with_panic_handler-Keeps, for_each-Keeps, if-Keeps, IsKept,
  try_update-Keeps, on_delta-Keeps, seed_orderbook-Keeps, add_market-Keeps, on_trade-Keeps,
}

module _ {W Q X : Type 0} ⦃d : Double W⦄ (om : OrderManagerIface W X)
    (strategy : StrategyIface (World W Q X)) (P : TradingSession W Q X → Type 0)
    (k : IsKept om strategy P) where
  mark_own-Keeps : (fill : Fill W) → Keeps P (change (mark_own fill))
  unfolding mark_own
  mark_own-Keeps fill s p = k.by_tape _ s p

  notify-Keeps : Keeps P (change (notify om))
  unfolding notify
  notify-Keeps s p = k.by_save _ s p

  record_flatten-Keeps : (order : Order) → Keeps P (record_flatten om order)
  unfolding record_flatten
  record_flatten-Keeps order s p =
      if-Keeps P (Quantity.is_positive order.filled_quantity) _ (done tt, s)
        (λ _.
          bind-Keeps P (on_orders (om.record_fill (flatten_fill order))) (λ _. change (notify om))
            (k.by_record_fill (flatten_fill order)) (λ _. notify-Keeps) s p)
        (λ _. p)

  reacted-Keeps :
      (known : Bool) (fill : Fill W) (s : TradingSession W Q X)
      → P s
      → P
          ((if known
              then pure tt
              else on_world (strategy.forget_order fill.market_ticker fill.order_id))
            s).1
  reacted-Keeps true fill s p = p
  reacted-Keeps false fill s p = k.by_forget_order fill.market_ticker fill.order_id s p

  settle_fill-Keeps : (fill : Fill W) → Keeps P (change (settle_fill om fill))
  unfolding settle_fill
  settle_fill-Keeps fill s p = notify-Keeps _ (k.by_refresh _ s p)

  after_fill-Keeps : (fill : Fill W) → Keeps P (after_fill om strategy fill)
  unfolding after_fill
  after_fill-Keeps fill s p =
      let known = has_key fill.order_id (om.open_orders s.world.orders) in
      bind-Keeps P
        (if known
          then pure tt
          else on_world (strategy.forget_order fill.market_ticker fill.order_id))
        (λ _. change (settle_fill om fill)) (reacted-Keeps known fill) (λ _. settle_fill-Keeps fill)
        s p

  on_fill-Keeps : (fill : Fill W) → Keeps P (on_fill om strategy fill)
  unfolding on_fill
  on_fill-Keeps fill s p =
      let marked = mark_own fill s in
      let q = mark_own-Keeps fill s p in
      if-Keeps P (is_tracked marked fill.market_ticker) _ (done false, marked)
        (λ _.
          bind-Keeps P (on_orders (om.record_fill fill))
            (λ recorded. if recorded then after_fill om strategy fill >> pure true else pure false)
            (k.by_record_fill fill)
            (λ recorded.
              elim recorded
                as (λ b.
                  Keeps P (if b then after_fill om strategy fill >> pure true else pure false)) [
                    | true ↦
                        bind-Keeps P (after_fill om strategy fill) (λ _. pure true)
                          (after_fill-Keeps fill) (λ _ _ q. q)
                    | false ↦ λ t r. r
                  ])
            marked q)
        (λ _. q)

  cancel_market-Keeps : (ticker : String) → Keeps P (cancel_market om ticker)
  unfolding cancel_market
  cancel_market-Keeps ticker =
      try_catch-Keeps P (on_orders (om.cancel_all ticker)) (pure tt) (k.by_cancel_all ticker)
        (λ _ q. q)

  cancel_order_quietly-Keeps : (order : Order) → Keeps P (cancel_order_quietly om order)
  unfolding cancel_order_quietly
  cancel_order_quietly-Keeps order =
      try_catch-Keeps P (on_orders (om.cancel order.id) >>= λ _. pure tt) (pure tt)
        (bind-Keeps P (on_orders (om.cancel order.id)) (λ _. pure tt) (k.by_cancel order.id)
          (λ _ _ q. q))
        (λ _ q. q)

  cancel_preexisting_orders-Keeps :
      (orders : List Order) → Keeps P (cancel_preexisting_orders om orders)
  unfolding cancel_preexisting_orders
  cancel_preexisting_orders-Keeps orders =
      for_each-Keeps P orders (cancel_order_quietly om) cancel_order_quietly-Keeps

  cancel_all_quotes-Keeps : Keeps P (cancel_all_quotes om strategy)
  unfolding cancel_all_quotes
  cancel_all_quotes-Keeps s =
      elim (om.open_orders s.world.orders)
        as (λ orders.
          P s
          → P
              ((elim orders as (λ _. Action (TradingSession W Q X) (Unit {0})) [
                | [] ↦ pure tt
                | ◌∷◌ _ _ ↦ for_each s.tickers (cancel_market om)
              ]
                  >> on_world strategy.reset_quotes)
                s).1) [
                  | [] ↦ k.by_reset s
                  | ◌∷◌ _ _ ↦
                      bind-Keeps P (for_each s.tickers (cancel_market om))
                        (λ _. on_world strategy.reset_quotes)
                        (for_each-Keeps P s.tickers (cancel_market om) cancel_market-Keeps)
                        (λ _. k.by_reset) s
                ]

  requote_idle-Keeps :
      (clock : String → ℤ × ℤ × ℤ) (entry : String × Orderbook)
      → Keeps P (requote_idle om strategy clock entry)
  unfolding requote_idle
  requote_idle-Keeps clock (ticker, book) s p =
      let (confirmed_at, checked, failed) = clock ticker in
      if-Keeps P
        (not (feed_confirmed s ticker confirmed_at)
          || (rests_on ticker (om.open_orders s.world.orders) || cools_down s ticker checked))
        (done tt, s) _ (λ _. p) (λ _. try_update-Keeps om strategy P k ticker book failed s p)

  requote_idle_markets-Keeps :
      (clock : String → ℤ × ℤ × ℤ) → Keeps P (requote_idle_markets om strategy clock)
  unfolding requote_idle_markets
  requote_idle_markets-Keeps clock s p =
      if-Keeps P (is_halted s.world.risk) (done tt, s) _ (λ _. p)
        (λ _.
          for_each-Keeps P s.ob_map (requote_idle om strategy clock) (requote_idle-Keeps clock) s p)

  mark_dead-Keeps :
      (clock : String → ℤ) (ticker : String) (s : TradingSession W Q X) (confirmed dead : Bool)
      → (confirmed ≡ false → P (record s { feed_dead = add_member ticker s.feed_dead }))
      → (confirmed || dead) ≡ false
      → P (record s { feed_dead = add_member ticker s.feed_dead })
  mark_dead-Keeps clock ticker s true dead h e = cc e
  mark_dead-Keeps clock ticker s false dead h e = h refl

  check_feed-Keeps :
      (clock : String → ℤ) (ticker : String) → Keeps P (check_feed om strategy clock ticker)
  unfolding check_feed
  check_feed-Keeps clock ticker s p =
      if-Keeps P (feed_confirmed s ticker (clock ticker) || contains ticker s.feed_dead)
        (done tt, s) _ (λ _. p)
        (λ e.
          bind-Keeps P (cancel_market om ticker) (λ _. on_world (strategy.forget_ticker ticker))
            (cancel_market-Keeps ticker) (λ _. k.by_forget_ticker ticker)
            (record s { feed_dead = add_member ticker s.feed_dead })
            (mark_dead-Keeps clock ticker s (feed_confirmed s ticker (clock ticker))
              (contains ticker s.feed_dead) (λ u. k.by_dead ticker (clock ticker) s u p) e))

  enforce_quote_safety-Keeps :
      (clock : String → ℤ) → Keeps P (enforce_quote_safety om strategy clock)
  unfolding enforce_quote_safety
  enforce_quote_safety-Keeps clock s p =
      if-Keeps P (is_halted s.world.risk) _ _ (λ _. cancel_all_quotes-Keeps s p)
        (λ _.
          for_each-Keeps P s.tickers (check_feed om strategy clock) (check_feed-Keeps clock) s p)

  dispatch-Keeps : (e : Event W) → Keeps P (dispatch om strategy e)
  unfolding dispatch on_disconnect run_portfolio_risk
  dispatch-Keeps (snapshot_received book now) = k.by_snapshot book now
  dispatch-Keeps (delta_received ticker side price_cents qty clock) =
      on_delta-Keeps om strategy P k ticker side price_cents qty clock
  dispatch-Keeps (trade_received trade) = on_trade-Keeps om strategy P k trade
  dispatch-Keeps (fill_received fill) =
      bind-Keeps P (on_fill om strategy fill) (λ _. pure tt) (on_fill-Keeps fill) (λ _ _ q. q)
  dispatch-Keeps (flattened order) = record_flatten-Keeps order
  dispatch-Keeps disconnected = cancel_all_quotes-Keeps
  dispatch-Keeps quotes_cancelled = cancel_all_quotes-Keeps
  dispatch-Keeps (market_seeded book now) = seed_orderbook-Keeps om strategy P k book now
  dispatch-Keeps (market_added book now) = add_market-Keeps om strategy P k book now
  dispatch-Keeps (market_dropped ticker) = k.by_drop ticker
  dispatch-Keeps (orders_found orders) = cancel_preexisting_orders-Keeps orders
  dispatch-Keeps (idle_checked clock) = requote_idle_markets-Keeps clock
  dispatch-Keeps (safety_checked clock) = enforce_quote_safety-Keeps clock
  dispatch-Keeps portfolio_checked = λ s p. k.by_portfolio (portfolio_snapshot om s) s p

  pub handle-Keeps : (e : Event W) → Keeps P (handle om strategy e)
  unfolding handle
  handle-Keeps e =
      with_panic_handler-Keeps P (cancel_all_quotes om strategy) (dispatch om strategy e)
        cancel_all_quotes-Keeps (dispatch-Keeps e)

  pub Reach-Keeps : {s t : TradingSession W Q X} → Reach om strategy s t → P s → P t
  Reach-Keeps here p = p
  Reach-Keeps (next {t} e r) p = handle-Keeps e t (Reach-Keeps r p)
