-- ===== src/Session/Answers.antt =====
-- `on_fill` of source/engine/trading_session.cpp for a tracked market, by what the order manager answers.
use kalshi_market_maker.Prelude.{
  Bool, true, false, ◌≡◌, refl, ◌∙◌, ap, if◌then◌else◌, Outcome, done, threw, panicked, pure, ◌>>◌,
}
use kalshi_market_maker.Float.{Double}
use kalshi_market_maker.Types.{Fill}
use kalshi_market_maker.Iface.{OrderManagerIface, StrategyIface}
use kalshi_market_maker.Session.{World, TradingSession, is_tracked}
use kalshi_market_maker.Session.Trades.{mark_own, after_fill, on_fill}

module _ {W Q X : Type 0} ⦃d : Double W⦄ (om : OrderManagerIface W X)
    (strategy : StrategyIface (World W Q X)) (fill : Fill W) (s : TradingSession W Q X) where
  -- The session when the order manager has answered.
  abbrev pub seen : X → TradingSession W Q X
  seen x =
      let marked = mark_own fill s in record marked { world = record (marked.world) { orders = x } }

  abbrev pub after_answer : Outcome Bool × X → Outcome Bool × TradingSession W Q X
  after_answer (r, x) = elim r as (λ _. Outcome Bool × TradingSession W Q X) [
    | done recorded ↦
        (if recorded then after_fill om strategy fill >> pure true else pure false) (seen x)
    | threw ↦ (threw, seen x)
    | panicked ↦ (panicked, seen x)
  ]

  answered_now :
      is_tracked s fill.market_ticker ≡ true
      → on_fill om strategy fill s ≡ after_answer (om.record_fill fill s.world.orders)
  unfolding on_fill is_tracked mark_own
  answered_now ours = rw ours refl

  pub on_fill_answer :
      (r : Outcome Bool × X)
      → om.record_fill fill s.world.orders ≡ r
      → is_tracked s fill.market_ticker ≡ true
      → on_fill om strategy fill s ≡ after_answer r
  on_fill_answer r e ours = answered_now ours ∙ ap after_answer e
