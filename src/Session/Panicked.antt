-- ===== src/Session/Panicked.antt =====
-- A failed `ensure` (source/core/ensure.cpp) in a handler of source/engine/trading_session.cpp: the panic
-- handler, `cancel_all_quotes`, runs before the process ends.
use kalshi_market_maker.Prelude.{
  true, false, ◌≡◌, ◌⊎◌, inl, inr, refl, Action, panicked, with_panic_handler, ensure, Bool-cases,
  All, ap, Outcome, Bool, done, threw,
}
use mathlib.Core.Path.{subst}
use kalshi_market_maker.Float.{Double}
use kalshi_market_maker.Quantity
use kalshi_market_maker.Types.{Fill, is_valid_price}
use kalshi_market_maker.Iface.{OrderManagerIface, StrategyIface}
use kalshi_market_maker.Orders
use kalshi_market_maker.Orders.Remote.{RestClient, Live}
use kalshi_market_maker.Orders.Implements.{order_manager}
use kalshi_market_maker.Orders.Cancelling.{Accepts}
use kalshi_market_maker.Orders.Clearing.{ClearsMarkets, order_manager-ClearsMarkets}
use kalshi_market_maker.Session.{World, TradingSession, is_tracked}
use kalshi_market_maker.Session.Trades.{mark_own, on_fill}
use kalshi_market_maker.Session.Answers.{on_fill_answer}
use kalshi_market_maker.Session.Safety.{cancel_all_quotes}
use kalshi_market_maker.Session.Emptied.{ForgetsOnly, IsCleared, cancel_all_quotes_clears}
use kalshi_market_maker.Session.Events.{Event, dispatch, handle, fill_received}

handler_runs :
    {S A : Type 0} (handler : Action S (Unit {0})) (m : Action S A) (s : S)
    → (m s).0 ≡ panicked
    → with_panic_handler handler m s ≡ (panicked, (handler (m s).1).1)
handler_runs handler m s e = rw (e, with_panic_handler)

module _ {W Q X : Type 0} ⦃d : Double W⦄ (om : OrderManagerIface W X)
    (strategy : StrategyIface (World W Q X)) (clearing : ClearsMarkets om)
    (quiet : ForgetsOnly strategy) where
  panic_flattens :
      (e : Event W) (s : TradingSession W Q X)
      → (dispatch om strategy e s).0 ≡ panicked
      → let r = handle om strategy e s in
        (r.0 ≡ panicked) × All (λ t. IsCleared om t r.1) (dispatch om strategy e s).1.tickers
  unfolding handle
  panic_flattens e s p =
      rw (handler_runs (cancel_all_quotes om strategy) (dispatch om strategy e) s p)
        (refl, (cancel_all_quotes_clears om strategy clearing quiet (dispatch om strategy e s).1).1)

module _ {W : Type 0} ⦃d : Double W⦄ (fill : Fill W) where
  abbrev pub IsBadFill : Type 0
  IsBadFill =
      (is_valid_price fill.price_cents ≡ false) ⊎ (Quantity.is_positive fill.quantity ≡ false)

  bad_fill_panics : (m : Orders.Manager W) → IsBadFill → Orders.record_fill fill m ≡ (panicked, m)
  unfolding Orders.record_fill
  bad_fill_panics m (inl bad) = rw (bad, ensure)
  bad_fill_panics m (inr bad) = elim (Bool-cases (is_valid_price fill.price_cents)) [
    | inl price ↦ rw (price, bad, ensure)
    | inr none ↦ rw (none, ensure)
  ]

  module _ {Q R : Type 0} (rest : RestClient R)
      (strategy : StrategyIface (World W Q (Live W R))) where
    on_fill_panics :
        (s : TradingSession W Q (Live W R))
        → is_tracked s fill.market_ticker ≡ true
        → IsBadFill
        → on_fill (order_manager rest) strategy fill s ≡ (panicked, mark_own fill s)
    unfolding mark_own
    on_fill_panics s ours bad =
        let live = s.world.orders in
        on_fill_answer (order_manager rest) strategy fill s (panicked, live)
          (ap (λ r. (r.0, record live { manager = r.1 })) (bad_fill_panics live.manager bad)) ours

    dispatched :
        (s : TradingSession W Q (Live W R))
        → is_tracked s fill.market_ticker ≡ true
        → IsBadFill
        → dispatch (order_manager rest) strategy (fill_received fill) s
          ≡ (panicked, mark_own fill s)
    unfolding dispatch
    dispatched s ours bad =
        ap
          (λ (r : Outcome Bool × TradingSession W Q (Live W R)).
            elim r.0 as (λ _. Outcome (Unit {0}) × TradingSession W Q (Live W R)) [
              | done a ↦ (done tt, r.1)
              | threw ↦ (threw, r.1)
              | panicked ↦ (panicked, r.1)
            ])
          (on_fill_panics s ours bad)

    -- A fill of a tracked market with a price outside [1,99] or without a size panics, and
    -- when the panic handler has run no order is open in any tracked market, over an exchange
    -- that confirms every cancellation and a strategy that returns when it forgets or is reset
    -- and cancels and places nothing then.
    pub bad_fill_flattens :
        Accepts rest
        → ForgetsOnly strategy
        → (s : TradingSession W Q (Live W R)) → is_tracked s fill.market_ticker ≡ true
        → IsBadFill
        → let r = handle (order_manager rest) strategy (fill_received fill) s in
          (r.0 ≡ panicked) × All (λ t. IsCleared (order_manager rest) t r.1) s.tickers
    unfolding mark_own
    bad_fill_flattens accepts quiet s ours bad =
        let e = dispatched s ours bad in
        let (ended, cleared) =
          panic_flattens (order_manager rest) strategy (order_manager-ClearsMarkets rest accepts)
            quiet (fill_received fill) s (ap (λ r. r.0) e) in
        (
          ended,
          subst
              (λ (r : Outcome (Unit {0}) × TradingSession W Q (Live W R)).
                All
                  (λ t.
                    IsCleared (order_manager rest) t
                      (handle (order_manager rest) strategy (fill_received fill) s).1)
                  r.1.tickers)
              e cleared,
        )
