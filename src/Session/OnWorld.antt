-- ===== src/Session/OnWorld.antt =====
-- What the handlers of source/engine/trading_session.cpp do to what the session shares with the
-- strategy: the order manager, the risk manager, the flow guard and the tape.
use kalshi_market_maker.Prelude.{false, not, String, List, Option, ◌≡◌, sym, Action, arith}
use mathlib.Core.Path.{subst}
use kalshi_market_maker.Float.{Double}
use kalshi_market_maker.Quantity
use kalshi_market_maker.Types.{Fill, Orderbook}
use kalshi_market_maker.Flow.{FlowImbalanceConfig, Fills}
use kalshi_market_maker.Tape.{TradeTapeConfig, TradeTape}
use kalshi_market_maker.Portfolio.{PortfolioSnapshot}
use kalshi_market_maker.Risk
use kalshi_market_maker.Iface.{OrderManagerIface, StrategyIface}
use kalshi_market_maker.Session.{World, TradingSession, is_tracked, rests_on}
use kalshi_market_maker.Session.Feed.{on_snapshot, record_delta, record_seed, adopt}
use kalshi_market_maker.Session.Safety.{remove_market_if_idle}
use kalshi_market_maker.Session.Kept.{Keeps, if-Keeps, IsKept}
use kalshi_market_maker.Session.Preserved.{Reach-Keeps}
use kalshi_market_maker.Session.Events.{Reach}

-- A call of the order manager, inside the shared part.
abbrev pub ordering : {W Q X A : Type 0} → Action X A → Action (World W Q X) A
ordering call w = let (r, x) = call w.orders in (r, record w { orders = x })

module _ {W Q X : Type 0} ⦃d : Double W⦄ (om : OrderManagerIface W X)
    (strategy : StrategyIface (World W Q X)) (G : World W Q X → Type 0) where
  pub record IsKeptWorld : Type 0 where
    pub by_update : (ticker : String) (book : Orderbook) → Keeps G (strategy.update ticker book)
    pub by_forget_order : (ticker id : String) → Keeps G (strategy.forget_order ticker id)
    pub by_forget_ticker : (ticker : String) → Keeps G (strategy.forget_ticker ticker)
    pub by_reset : Keeps G strategy.reset_quotes
    pub by_cancel : (id : String) → Keeps G (ordering (om.cancel id))
    pub by_cancel_all : (ticker : String) → Keeps G (ordering (om.cancel_all ticker))
    pub by_record_fill : (fill : Fill W) → Keeps G (ordering (om.record_fill fill))
    pub by_refresh :
        (guard : Option (FlowImbalanceConfig W × Fills)) (tickers : List String) (w : World W Q X)
        → G w
        → G (record w { risk = Risk.update om w.orders tickers w.risk; flow_guard = guard })
    pub by_portfolio :
        (snap : PortfolioSnapshot W) (w : World W Q X)
        → G w
        → G (record w { risk = (Risk.update_portfolio snap w.risk).1 })
    pub by_tape :
        (tape : Option (TradeTapeConfig W × TradeTape)) (w : World W Q X)
        → G w
        → G (record w { trade_tape = tape })

  adopt-world : (ticker : String) (s : TradingSession W Q X) → (adopt ticker s).world ≡ s.world
  unfolding adopt
  adopt-world ticker s = ground arith

  dropped-world :
      (ticker : String) (s : TradingSession W Q X)
      → G s.world
      → G (remove_market_if_idle om ticker s).1.world
  unfolding remove_market_if_idle
  dropped-world ticker s g =
      if-Keeps (λ (t : TradingSession W Q X). G t.world) (not (is_tracked s ticker)) (false, s) _
        (λ _. g)
        (λ _.
          if-Keeps (λ (t : TradingSession W Q X). G t.world)
            (not (Quantity.is_zero (om.net_position s.world.orders ticker))) (false, s) _ (λ _. g)
            (λ _.
              if-Keeps (λ (t : TradingSession W Q X). G t.world)
                (rests_on ticker (om.open_orders s.world.orders)) (false, s) _ (λ _. g) (λ _. g)))

  on_session : IsKeptWorld → IsKept om strategy (λ s. G s.world)
  unfolding on_snapshot record_delta record_seed
  on_session k = record {
    by_update = λ ticker book s. k.by_update ticker book s.world;
    by_forget_order = λ ticker id s. k.by_forget_order ticker id s.world;
    by_forget_ticker = λ ticker s. k.by_forget_ticker ticker s.world;
    by_reset = λ s. k.by_reset s.world;
    by_cancel = λ id s. k.by_cancel id s.world;
    by_cancel_all = λ ticker s. k.by_cancel_all ticker s.world;
    by_record_fill = λ fill s. k.by_record_fill fill s.world;
    by_refresh = λ guard s. k.by_refresh guard s.tickers s.world;
    by_portfolio = λ snap s. k.by_portfolio snap s.world;
    by_tape = λ tape s. k.by_tape tape s.world;
    by_save = λ totals s g. g;
    by_cooldown = λ until s g. g;
    by_snapshot = λ book now s g. g;
    by_delta = λ ticker side price_cents qty now s g. g;
    by_seed = λ book now s g. g;
    by_adopt = λ ticker s g. subst G (sym (adopt-world ticker s)) g;
    by_drop = dropped-world;
    by_dead = λ ticker now s u g. g;
  }

  pub Reach-world :
      {s t : TradingSession W Q X} → IsKeptWorld → Reach om strategy s t → G s.world → G t.world
  Reach-world k r = Reach-Keeps om strategy (λ s. G s.world) (on_session k) r
