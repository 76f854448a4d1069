-- ===== src/Session/Cooling.antt =====
-- The error cooldown of `on_delta` in source/engine/trading_session.cpp.
use kalshi_market_maker.Prelude.{
  ℤ, ◌+ℤ◌, ltb_ℤ, true, false, String, if◌then◌else◌, ◌≡◌, refl, arith, Outcome, done, threw,
  lookup-insert, str_eq, str_eq_refl, try_catch, ◌∙◌,
}
use kalshi_market_maker.Quantity.{Quantity}
use kalshi_market_maker.Types.{Side, Orderbook}
use kalshi_market_maker.Iface.{StrategyIface}
use kalshi_market_maker.Session.{World, TradingSession, is_tracked, cools_down, book_of}
use kalshi_market_maker.Session.Feed.{record_delta, start_cooldown, try_update, on_delta}

module _ {W Q X : Type 0} (strategy : StrategyIface (World W Q X)) (ticker : String) where
  -- A placement that fails at `failed` starts a cooldown of its market.
  cools_down-start :
      (s : TradingSession W Q X) (other : String) (failed now : ℤ)
      → cools_down (start_cooldown ticker failed s) other now ≡ (
          if str_eq ticker other
          then ltb_ℤ now (failed +ℤ s.error_cooldown)
          else cools_down s other now)
  unfolding cools_down start_cooldown
  cools_down-start s other failed now =
      ground (arith, lookup-insert ticker other (failed +ℤ s.error_cooldown) s.cooldown_until)

  on_delta-cooling :
      (s : TradingSession W Q X) (side : Side) (price : ℤ) (qty : Quantity)
      (seen checked failed : ℤ)
      → cools_down s ticker checked ≡ true
      → on_delta strategy ticker side price qty (seen, checked, failed) s
        ≡ (done tt, record_delta ticker side price qty seen s)
  unfolding on_delta record_delta is_tracked cools_down
  on_delta-cooling s side price qty seen checked failed h = ground (arith, h)

  try_update-failing :
      (book : Orderbook) (failed : ℤ) (s : TradingSession W Q X)
      → (strategy.update ticker book s.world).0 ≡ threw
      → try_update strategy ticker book failed s ≡ (
        done tt,
        start_cooldown ticker failed (record s { world = (strategy.update ticker book s.world).1 }),
      )
  unfolding try_update
  try_update-failing book failed s e = rw (e, try_catch) refl

  kept_cooldown :
      (s : TradingSession W Q X) (side : Side) (price : ℤ) (qty : Quantity) (seen : ℤ)
      → (record_delta ticker side price qty seen s).error_cooldown ≡ s.error_cooldown
  unfolding record_delta
  kept_cooldown s side price qty seen = refl

  module _ (s : TradingSession W Q X) (side : Side) (price : ℤ) (qty : Quantity)
      (seen checked failed : ℤ) where
    abbrev after : TradingSession W Q X
    after = record_delta ticker side price qty seen s

    abbrev pub failing : Outcome (Unit {0}) × World W Q X
    failing = strategy.update ticker (book_of ticker after.ob_map) s.world

    on_delta-failing :
        is_tracked s ticker ≡ true
        → cools_down s ticker checked ≡ false
        → failing.0 ≡ threw
        → on_delta strategy ticker side price qty (seen, checked, failed) s
          ≡ (done tt, start_cooldown ticker failed (record after { world = failing.1 }))
    unfolding on_delta is_tracked cools_down record_delta
    on_delta-failing tracked ready fails =
        rw (tracked, ready) (try_update-failing (book_of ticker after.ob_map) failed after fails)

    -- If a delta of a tracked market that is not cooling down makes the strategy throw,
    -- on_delta returns, and another delta of the market before the end of the cooldown only
    -- updates the book and its bookkeeping.
    pub on_delta-cools :
        (side' : Side) (price' : ℤ) (qty' : Quantity) (seen' checked' failed' : ℤ)
        → is_tracked s ticker ≡ true
        → cools_down s ticker checked ≡ false
        → failing.0 ≡ threw
        → ltb_ℤ checked' (failed +ℤ s.error_cooldown) ≡ true
        → let first = on_delta strategy ticker side price qty (seen, checked, failed) s in
          (first.0 ≡ done tt)
          × (on_delta strategy ticker side' price' qty' (seen', checked', failed') first.1
              ≡ (done tt, record_delta ticker side' price' qty' seen' first.1))
    on_delta-cools side' price' qty' seen' checked' failed' tracked ready fails soon =
        let still = record after { world = failing.1 } in
        rw (on_delta-failing tracked ready fails) (
          refl,
          on_delta-cooling (start_cooldown ticker failed still) side' price' qty' seen' checked'
              failed'
              (cools_down-start still ticker failed checked'
                ∙ rw (str_eq_refl ticker, kept_cooldown s side price qty seen) soon),
        )
