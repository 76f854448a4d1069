-- ===== src/Session/Uncaught.antt =====
-- Every handler of source/engine/trading_session.cpp, as far as exceptions go.
use kalshi_market_maker.Prelude.{
  Bool, true, false, if◌then◌else◌, ◌≢◌, refl, Outcome, done, threw, panicked, Action, pure, ◌>>=◌,
  ◌>>◌, ensure, with_panic_handler, has_key, Bool-cases, inl, inr,
}
use kalshi_market_maker.Float.{Double}
use kalshi_market_maker.Portfolio.{PortfolioSnapshot, total_pnl_cents}
use kalshi_market_maker.Quantity
use kalshi_market_maker.Types.{Fill, Order}
use kalshi_market_maker.Risk.{update_portfolio}
use kalshi_market_maker.Iface.{OrderManagerIface, StrategyIface}
use kalshi_market_maker.Session.{World, TradingSession, is_tracked, on_orders, on_world, change}
use kalshi_market_maker.Session.Feed.{on_snapshot, on_trade}
use kalshi_market_maker.Session.Trades.{
  mark_own, settle_fill, after_fill, on_fill, flatten_fill, record_flatten, notify,
}
use kalshi_market_maker.Session.Safety.{on_disconnect, cancel_all_quotes, remove_market_if_idle}
use kalshi_market_maker.Session.Reports.{run_portfolio_risk, portfolio_snapshot}
use kalshi_market_maker.Session.Contained.{
  Contains, NeverThrows, pure-Contains, change-Contains, if-Contains, threw_ne_done,
  on_delta-Contains, seed_orderbook-Contains, add_market-Contains, cancel_all_quotes-Contains,
  cancel_preexisting_orders-Contains, requote_idle_markets-Contains, enforce_quote_safety-Contains,
}
use kalshi_market_maker.Session.Events.{
  Event, dispatch, handle, snapshot_received, delta_received, trade_received, fill_received,
  flattened, disconnected, quotes_cancelled, market_seeded, market_added, market_dropped,
  orders_found, idle_checked, safety_checked, portfolio_checked,
}

bind-Contains :
    {S A B : Type 0} (m : Action S A) (k : A → Action S B)
    → Contains m
    → ((a : A) → Contains (k a))
    → Contains (m >>= k)
bind-Contains {S} {A} {B} m k h g s = next (m s).0 (m s).1 (h s)
  where
    next :
        (r : Outcome A) (t : S)
        → r ≢ threw
        → (elim r as (λ _. Outcome B × S) [
          | done a ↦ k a t
          | threw ↦ (threw, t)
          | panicked ↦ (panicked, t)
        ]).0
          ≢ threw
    next (done a) t n e = g a t e
    next threw t n e = n refl
    next panicked t n e = cc e

with_panic_handler-Contains :
    {S A : Type 0} (handler : Action S (Unit {0})) (m : Action S A)
    → Contains m
    → Contains (with_panic_handler handler m)
with_panic_handler-Contains {S} {A} handler m h s = ended (m s).0 (m s).1 (h s)
  where
    ended :
        (r : Outcome A) (t : S)
        → r ≢ threw
        → (elim r as (λ _. Outcome A × S) [
          | done a ↦ (done a, t)
          | threw ↦ (threw, t)
          | panicked ↦ (panicked, (handler t).1)
        ]).0
          ≢ threw
    ended (done a) t n e = cc e
    ended threw t n e = n refl
    ended panicked t n e = cc e

module _ {W : Type 0} ⦃d : Double W⦄ where
  update_portfolio-Contains : (snap : PortfolioSnapshot W) → Contains (update_portfolio snap)
  unfolding update_portfolio
  update_portfolio-Contains snap r = elim (Bool-cases (d.is_finite snap.total_notional_cents)) [
    | inr h ↦ rw (h, ensure) (λ e. cc e)
    | inl h ↦ elim (Bool-cases (d.is_finite (total_pnl_cents snap))) [
      | inr g ↦ rw (h, g) (λ e. cc e)
      | inl g ↦ rw (h, g) (threw_ne_done tt)
    ]
  ]

module _ {W Q X : Type 0} ⦃d : Double W⦄ (om : OrderManagerIface W X)
    (strategy : StrategyIface (World W Q X))
    (h : (fill : Fill W) (x : X) → (om.record_fill fill x).0 ≢ threw)
    (calm : NeverThrows strategy) where
  recording-Contains : (fill : Fill W) → Contains (on_orders {W = W} {Q = Q} (om.record_fill fill))
  recording-Contains fill s = h fill s.world.orders

  forgotten-Contains :
      (known : Bool) (fill : Fill W)
      → Contains (
          if known
          then pure tt
          else on_world {W = W} {Q = Q} {X = X}
              (strategy.forget_order fill.market_ticker fill.order_id))
  forgotten-Contains true fill s = pure-Contains tt s
  forgotten-Contains false fill s = calm.forgets_order fill.market_ticker fill.order_id s.world

  after_fill-Contains : (fill : Fill W) → Contains (after_fill om strategy fill)
  unfolding after_fill
  after_fill-Contains fill s =
      let known = has_key fill.order_id (om.open_orders s.world.orders) in
      bind-Contains
        (if known
          then pure tt
          else on_world (strategy.forget_order fill.market_ticker fill.order_id))
        (λ _. change (settle_fill om fill)) (forgotten-Contains known fill)
        (λ _. change-Contains (settle_fill om fill)) s

  on_fill-Contains : (fill : Fill W) → Contains (on_fill om strategy fill)
  unfolding on_fill
  on_fill-Contains fill s =
      let marked = mark_own fill s in
      if-Contains (is_tracked marked fill.market_ticker) _ (done false, marked)
        (bind-Contains (on_orders (om.record_fill fill))
          (λ recorded. if recorded then after_fill om strategy fill >> pure true else pure false)
          (recording-Contains fill)
          (λ recorded.
            elim recorded
              as (λ b.
                Contains (if b then after_fill om strategy fill >> pure true else pure false)) [
                  | true ↦
                      bind-Contains (after_fill om strategy fill) (λ _. pure true)
                        (after_fill-Contains fill) (λ _. pure-Contains true)
                  | false ↦ pure-Contains false
                ])
          marked)
        (threw_ne_done false)

  record_flatten-Contains : (order : Order) → Contains (record_flatten {Q = Q} om order)
  unfolding record_flatten
  record_flatten-Contains order s =
      if-Contains (Quantity.is_positive order.filled_quantity) _ (done tt, s)
        (bind-Contains (on_orders (om.record_fill (flatten_fill order))) (λ _. change (notify om))
          (recording-Contains (flatten_fill order)) (λ _. change-Contains (notify om)) s)
        (threw_ne_done tt)

  dispatch-Contains : (e : Event W) → Contains (dispatch om strategy e)
  unfolding dispatch on_disconnect run_portfolio_risk
  dispatch-Contains (snapshot_received book now) = change-Contains (on_snapshot book now)
  dispatch-Contains (delta_received ticker side price_cents qty clock) =
      on_delta-Contains strategy ticker side price_cents qty clock
  dispatch-Contains (trade_received trade) = change-Contains (on_trade trade)
  dispatch-Contains (fill_received fill) =
      bind-Contains (on_fill om strategy fill) (λ _. pure tt) (on_fill-Contains fill)
        (λ _. pure-Contains tt)
  dispatch-Contains (flattened order) = record_flatten-Contains order
  dispatch-Contains disconnected = cancel_all_quotes-Contains om strategy calm
  dispatch-Contains quotes_cancelled = cancel_all_quotes-Contains om strategy calm
  dispatch-Contains (market_seeded book now) = seed_orderbook-Contains strategy book now
  dispatch-Contains (market_added book now) = add_market-Contains strategy book now
  dispatch-Contains (market_dropped ticker) =
      change-Contains (λ s. (remove_market_if_idle om ticker s).1)
  dispatch-Contains (orders_found orders) = cancel_preexisting_orders-Contains om orders
  dispatch-Contains (idle_checked clock) = requote_idle_markets-Contains om strategy calm clock
  dispatch-Contains (safety_checked clock) = enforce_quote_safety-Contains om strategy calm clock
  dispatch-Contains portfolio_checked =
      λ s. update_portfolio-Contains (portfolio_snapshot om s) s.world.risk

  -- If record_fill and the three calls that the session makes of the strategy outside a try
  -- block, forget_order, forget_ticker and reset_quotes, do not throw, no exception leaves the
  -- handler of any event, whatever update, cancel and cancel_all throw. Reads of the order
  -- manager are values here, so they do not throw.
  pub handle_contains :
      (e : Event W) (s : TradingSession W Q X) → (handle om strategy e s).0 ≢ threw
  unfolding handle
  handle_contains e =
      with_panic_handler-Contains (cancel_all_quotes om strategy) (dispatch om strategy e)
        (dispatch-Contains e)
