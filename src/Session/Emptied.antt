-- ===== src/Session/Emptied.antt =====
-- `cancel_all_quotes` of source/engine/trading_session.cpp over an order manager that clears markets.
use kalshi_market_maker.Prelude.{
  ℤ, true, String, List, [], ◌∷◌, ◌≡◌, refl, done, Action, pure, ◌>>◌, try_catch, for_each,
  then_done, for_each_returns, for_each-All, All, AllEntries, Dict,
}
use kalshi_market_maker.Types.{Order}
use kalshi_market_maker.Risk.{is_halted}
use kalshi_market_maker.Iface.{OrderManagerIface, StrategyIface}
use kalshi_market_maker.Orders.Cancelling.{ElsewhereOrder}
use kalshi_market_maker.Orders.Clearing.{ClearsMarkets}
use kalshi_market_maker.Session.{World, TradingSession, on_world}
use kalshi_market_maker.Session.Safety.{cancel_market, cancel_all_quotes, enforce_quote_safety}

-- What a strategy forgets are its own records: it returns, and cancels and places nothing then.
pub record ForgetsOnly {W Q X : Type 0} (strategy : StrategyIface (World W Q X)) : Type 0 where
  pub forget_returns :
      (ticker : String) (w : World W Q X) → (strategy.forget_ticker ticker w).0 ≡ done tt
  pub forgetting :
      (ticker : String) (w : World W Q X) → (strategy.forget_ticker ticker w).1.orders ≡ w.orders
  pub reset_returns : (w : World W Q X) → (strategy.reset_quotes w).0 ≡ done tt
  pub resetting : (w : World W Q X) → (strategy.reset_quotes w).1.orders ≡ w.orders

-- No open order of the market.
abbrev pub IsCleared :
    {W Q X : Type 0} → OrderManagerIface W X → String → TradingSession W Q X → Type 0
IsCleared om ticker s = AllEntries (ElsewhereOrder ticker) (om.open_orders s.world.orders)

module _ {W Q X : Type 0} (om : OrderManagerIface W X)
    (strategy : StrategyIface (World W Q X)) where
  module _ (clearing : ClearsMarkets om) (quiet : ForgetsOnly strategy) where
    pub cancel_market-state :
        (ticker : String) (s : TradingSession W Q X)
        → cancel_market om ticker s ≡ (
          done tt,
          record s {
            world = record (s.world) { orders = (om.cancel_all ticker s.world.orders).1 };
          },
        )
    unfolding cancel_market
    cancel_market-state ticker s = rw (clearing.returns ticker s.world.orders, try_catch) refl

    cancel_market-returns :
        (ticker : String) (s : TradingSession W Q X) → (cancel_market om ticker s).0 ≡ done tt
    cancel_market-returns ticker s = rw (cancel_market-state ticker s) refl

    cancel_market-clears :
        (ticker : String) (s : TradingSession W Q X)
        → IsCleared om ticker (cancel_market om ticker s).1
    cancel_market-clears ticker s =
        rw (cancel_market-state ticker s) (clearing.clears ticker s.world.orders)

    cancel_market-spares :
        (ticker other : String) (s : TradingSession W Q X)
        → IsCleared om other s
        → IsCleared om other (cancel_market om ticker s).1
    cancel_market-spares ticker other s c =
        rw (cancel_market-state ticker s) (clearing.adds_none ticker other s.world.orders c)

    All-IsCleared :
        (tickers : List String) (s : TradingSession W Q X)
        → om.open_orders s.world.orders ≡ []
        → All (λ t. IsCleared om t s) tickers
    All-IsCleared [] s e = tt
    All-IsCleared (t ∷ ts) s e = (rw e tt, All-IsCleared ts s e)

    after_reset :
        (tickers : List String) (s : TradingSession W Q X)
        → All (λ t. IsCleared om t s) tickers
        → All
            (λ t. IsCleared om t (on_world {W = W} {Q = Q} {X = X} strategy.reset_quotes s).1)
            tickers
    after_reset [] s a = tt
    after_reset (t ∷ ts) s (c, a) = (rw (quiet.resetting s.world) c, after_reset ts s a)

    pub cancel_all_quotes_clears :
        (s : TradingSession W Q X)
        → ((cancel_all_quotes om strategy s).0 ≡ done tt)
          × All (λ t. IsCleared om t (cancel_all_quotes om strategy s).1) s.tickers
    unfolding cancel_all_quotes
    cancel_all_quotes_clears s = known (om.open_orders s.world.orders) refl
      where
        resets : Action (TradingSession W Q X) (Unit {0})
        resets = on_world strategy.reset_quotes

        known :
            (orders : Dict Order)
            → om.open_orders s.world.orders ≡ orders
            → let r =
                ((elim orders as (λ _. Action (TradingSession W Q X) (Unit {0})) [
                  | [] ↦ pure tt
                  | ◌∷◌ _ _ ↦ for_each s.tickers (cancel_market om)
                ]
                    >> resets)
                  s) in
              (r.0 ≡ done tt) × All (λ t. IsCleared om t r.1) s.tickers
        known [] e =
            (quiet.reset_returns s.world, after_reset s.tickers s (All-IsCleared s.tickers s e))
        known (o ∷ os) e =
            rw
              (then_done (for_each s.tickers (cancel_market om)) resets s
                (for_each_returns (cancel_market om) cancel_market-returns s.tickers s))
              (
                quiet.reset_returns (for_each s.tickers (cancel_market om) s).1.world,
                after_reset s.tickers (for_each s.tickers (cancel_market om) s).1 (
                    for_each-All (cancel_market om) cancel_market-returns (IsCleared om)
                      cancel_market-clears cancel_market-spares s.tickers s),
              )

    -- While trading is halted, enforce_quote_safety returns and leaves no order open in a
    -- tracked market, if cancel_all returns, clears its market and adds no order, and the
    -- strategy returns from a reset and cancels and places nothing then.
    pub enforce_quote_safety_clears :
        (clock : String → ℤ) (s : TradingSession W Q X)
        → is_halted s.world.risk ≡ true
        → ((enforce_quote_safety om strategy clock s).0 ≡ done tt)
          × All (λ t. IsCleared om t (enforce_quote_safety om strategy clock s).1) s.tickers
    unfolding enforce_quote_safety
    enforce_quote_safety_clears clock s h = rw h (cancel_all_quotes_clears s)
