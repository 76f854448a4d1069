-- ===== src/Session/Feed.antt =====
-- The book events of source/engine/trading_session.cpp: snapshots, deltas, seeding and adopting a
-- market, and public trades.
use kalshi_market_maker.Prelude.{
  ℤ, ◌+ℤ◌, String, [], ◌∷◌, ◌++◌, Option, none, some, if◌then◌else◌, insert, done, Action, pure,
  try_catch,
}
use kalshi_market_maker.Quantity.{Quantity}
use kalshi_market_maker.Types.{Side, Orderbook, PublicTrade}
use kalshi_market_maker.Book.{apply_snapshot, apply_delta}
use kalshi_market_maker.Tape.{TradeTapeConfig, TradeTape, record_trade}
use kalshi_market_maker.Iface.{StrategyIface}
use kalshi_market_maker.Session.{
  World, TradingSession, remove_all, book_of, is_tracked, cools_down, on_world, change,
}

module _ {W Q X : Type 0} where
  unfoldable pub on_snapshot : Orderbook → ℤ → TradingSession W Q X → TradingSession W Q X
  unfolding remove_all
  on_snapshot snapshot now s = record s {
    ob_map = insert snapshot.ticker (apply_snapshot snapshot) s.ob_map;
    last_book_update = insert snapshot.ticker now s.last_book_update;
    feed_dead = remove_all snapshot.ticker s.feed_dead;
  }

  -- The part of `on_delta` before its guards.
  unfoldable pub record_delta :
      String → Side → ℤ → Quantity → ℤ → TradingSession W Q X → TradingSession W Q X
  unfolding remove_all
  record_delta ticker side price_cents qty now s = record s {
    ob_map = insert ticker (apply_delta (book_of ticker s.ob_map) side price_cents qty) s.ob_map;
    last_book_update = insert ticker now s.last_book_update;
    feed_dead = remove_all ticker s.feed_dead;
  }

  -- The `catch` blocks that start a cooldown.
  unfoldable pub start_cooldown : String → ℤ → TradingSession W Q X → TradingSession W Q X
  start_cooldown ticker now s = record s {
    cooldown_until = insert ticker (now +ℤ s.error_cooldown) s.cooldown_until;
  }

  unfoldable pub on_trade : PublicTrade → TradingSession W Q X → TradingSession W Q X
  on_trade trade s = record s {
    world = record (s.world) {
      trade_tape = elim s.world.trade_tape as (λ _. Option (TradeTapeConfig W × TradeTape)) [
        | none ↦ none
        | some (config, tape) ↦ some (config, record_trade config trade tape)
      ];
    };
  }

  -- The part of `seed_orderbook` before the strategy is called.
  unfoldable pub record_seed : Orderbook → ℤ → TradingSession W Q X → TradingSession W Q X
  unfolding remove_all
  record_seed snapshot now s = record s {
    ob_map = insert snapshot.ticker (apply_snapshot snapshot) s.ob_map;
    seeded_at = insert snapshot.ticker now s.seeded_at;
    feed_dead = remove_all snapshot.ticker s.feed_dead;
  }

  unfoldable pub adopt : String → TradingSession W Q X → TradingSession W Q X
  adopt ticker s =
      if is_tracked s ticker then s else record s { tickers = s.tickers ++ ticker ∷ [] }

  module _ (strategy : StrategyIface (World W Q X)) where
    -- `try { strategy_.update(ticker, book); }` with a cooldown in the handler.
    unfoldable pub try_update : String → Orderbook → ℤ → Action (TradingSession W Q X) (Unit {0})
    try_update ticker book failed_at =
        try_catch (on_world (strategy.update ticker book))
          (change (start_cooldown ticker failed_at))

    -- The three readings: of the update, of the guard, and in the handler.
    unfoldable pub on_delta :
        String → Side → ℤ → Quantity → ℤ × ℤ × ℤ → Action (TradingSession W Q X) (Unit {0})
    on_delta ticker side price_cents qty (seen, checked, failed) s =
        let after = record_delta ticker side price_cents qty seen s in
        if is_tracked after ticker
        then (if cools_down after ticker checked
            then (done tt, after)
            else try_update ticker (book_of ticker after.ob_map) failed after)
        else (done tt, after)

    -- A failure is only logged.
    unfoldable pub seed_orderbook : Orderbook → ℤ → Action (TradingSession W Q X) (Unit {0})
    seed_orderbook snapshot now s =
        try_catch (on_world (strategy.update snapshot.ticker (apply_snapshot snapshot))) (pure tt)
          (record_seed snapshot now s)

    unfoldable pub add_market : Orderbook → ℤ → Action (TradingSession W Q X) (Unit {0})
    add_market snapshot now s = seed_orderbook snapshot now (adopt snapshot.ticker s)
