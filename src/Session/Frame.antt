-- ===== src/Session/Frame.antt =====
-- The fields of source/engine/trading_session.cpp that no event writes.
use kalshi_market_maker.Prelude.{true, false, not, String, ◌≡◌, refl, if◌then◌else◌, ◌++◌, ◌∷◌, []}
use kalshi_market_maker.Float.{Double}
use kalshi_market_maker.Quantity
use kalshi_market_maker.Iface.{OrderManagerIface, StrategyIface}
use kalshi_market_maker.Session.{World, TradingSession, is_tracked, rests_on}
use kalshi_market_maker.Session.Feed.{on_snapshot, record_delta, record_seed, adopt}
use kalshi_market_maker.Session.Safety.{remove_market_if_idle}
use kalshi_market_maker.Session.Kept.{if-Keeps, IsKept}
use kalshi_market_maker.Session.Preserved.{Reach-Keeps}
use kalshi_market_maker.Session.Events.{Reach}

module _ {W Q X : Type 0} ⦃d : Double W⦄ (om : OrderManagerIface W X)
    (strategy : StrategyIface (World W Q X)) (s : TradingSession W Q X) where
  -- The carried profit, its listener and the length of a cooldown are those of `s`.
  abbrev pub IsConfiguredLike : TradingSession W Q X → Type 0
  IsConfiguredLike t =
      (t.prior_pnl ≡ s.prior_pnl)
      × (t.has_listener ≡ s.has_listener)
      × (t.error_cooldown ≡ s.error_cooldown)

  dropped-configured :
      (ticker : String) (t : TradingSession W Q X)
      → IsConfiguredLike t
      → IsConfiguredLike (remove_market_if_idle om ticker t).1
  unfolding remove_market_if_idle
  dropped-configured ticker t c =
      if-Keeps IsConfiguredLike (not (is_tracked t ticker)) (false, t) _ (λ _. c)
        (λ _.
          if-Keeps IsConfiguredLike (not (Quantity.is_zero (om.net_position t.world.orders ticker)))
            (false, t) _ (λ _. c)
            (λ _.
              if-Keeps IsConfiguredLike (rests_on ticker (om.open_orders t.world.orders)) (false, t)
                _ (λ _. c) (λ _. c)))

  adopted-configured :
      (ticker : String) (t : TradingSession W Q X)
      → IsConfiguredLike t
      → IsConfiguredLike (adopt ticker t)
  unfolding adopt
  adopted-configured ticker t c =
      elim (is_tracked t ticker)
        as (λ b.
          IsConfiguredLike (if b then t else record t { tickers = t.tickers ++ ticker ∷ [] })) [
            | true ↦ c
            | false ↦ c
          ]

  configured : IsKept om strategy IsConfiguredLike
  unfolding on_snapshot record_delta record_seed
  configured = record {
    by_update = λ ticker book t c. c;
    by_forget_order = λ ticker id t c. c;
    by_forget_ticker = λ ticker t c. c;
    by_reset = λ t c. c;
    by_cancel = λ id t c. c;
    by_cancel_all = λ ticker t c. c;
    by_record_fill = λ fill t c. c;
    by_refresh = λ guard t c. c;
    by_portfolio = λ snap t c. c;
    by_tape = λ tape t c. c;
    by_save = λ totals t c. c;
    by_cooldown = λ until t c. c;
    by_snapshot = λ book now t c. c;
    by_delta = λ ticker side price_cents qty now t c. c;
    by_seed = λ book now t c. c;
    by_adopt = adopted-configured;
    by_drop = dropped-configured;
    by_dead = λ ticker now t u c. c;
  }

  -- No sequence of events changes the carried profit, the presence of a listener or the length
  -- of a cooldown.
  pub Reach-configured :
      {t : TradingSession W Q X}
      → Reach om strategy s t
      → (t.prior_pnl ≡ s.prior_pnl)
        × (t.has_listener ≡ s.has_listener)
        × (t.error_cooldown ≡ s.error_cooldown)
  Reach-configured r = Reach-Keeps om strategy IsConfiguredLike configured r (refl, refl, refl)
