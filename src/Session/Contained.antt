-- ===== src/Session/Contained.antt =====
-- Which exceptions leave the handlers of source/engine/trading_session.cpp.
use kalshi_market_maker.Prelude.{
  ℤ, Bool, true, false, not, ◌||◌, String, List, [], ◌∷◌, if◌then◌else◌, ◌≢◌, refl, Outcome, done,
  threw, panicked, Action, pure, ◌>>=◌, ◌>>◌, try_catch, for_each, contains,
}
use kalshi_market_maker.Quantity.{Quantity}
use kalshi_market_maker.Types.{Side, Order, Orderbook}
use kalshi_market_maker.Risk.{is_halted}
use kalshi_market_maker.Iface.{OrderManagerIface, StrategyIface}
use kalshi_market_maker.Session.{
  World, TradingSession, is_tracked, cools_down, feed_confirmed, rests_on, on_world, on_orders,
  change, book_of, add_member,
}
use kalshi_market_maker.Session.Feed.{
  record_delta, record_seed, adopt, start_cooldown, try_update, on_delta, seed_orderbook,
  add_market,
}
use kalshi_market_maker.Session.Safety.{
  cancel_market, cancel_order_quietly, cancel_preexisting_orders, cancel_all_quotes, requote_idle,
  requote_idle_markets, check_feed, enforce_quote_safety,
}
use kalshi_market_maker.Book.{apply_snapshot}

-- No exception leaves the action, from any state.
abbrev pub Contains : {S A : Type 0} → Action S A → Type 0
Contains {S} m = (s : S) → (m s).0 ≢ threw

pub threw_ne_done : {A : Type 0} (a : A) → ◌≢◌ {A = Outcome A} (done a) threw
threw_ne_done a e = cc e

try_catch-Contains :
    {S A : Type 0} (m handler : Action S A) → Contains handler → Contains (try_catch m handler)
try_catch-Contains {S} {A} m handler h s = caught (m s).0 (m s).1
  where
    caught :
        (r : Outcome A) (t : S)
        → (elim r as (λ _. Outcome A × S) [
          | done a ↦ (done a, t)
          | threw ↦ handler t
          | panicked ↦ (panicked, t)
        ]).0
          ≢ threw
    caught (done a) t e = cc e
    caught threw t e = h t e
    caught panicked t e = cc e

then-Contains :
    {S B : Type 0} (m : Action S (Unit {0})) (k : Action S B)
    → Contains m
    → Contains k
    → Contains (m >> k)
then-Contains {S} {B} m k h g s = next (m s).0 (m s).1 (h s)
  where
    next :
        (r : Outcome (Unit {0})) (t : S)
        → r ≢ threw
        → (elim r as (λ _. Outcome B × S) [
          | done a ↦ k t
          | threw ↦ (threw, t)
          | panicked ↦ (panicked, t)
        ]).0
          ≢ threw
    next (done a) t n e = g t e
    next threw t n e = n refl
    next panicked t n e = cc e

for_each-Contains :
    {S A : Type 0} (xs : List A) (body : A → Action S (Unit {0}))
    → ((x : A) → Contains (body x))
    → Contains (for_each xs body)
unfolding for_each
for_each-Contains [] body h s e = cc e
for_each-Contains (x ∷ xs) body h s e =
    then-Contains (body x) (for_each xs body) (h x) (for_each-Contains xs body h) s e

pub if-Contains :
    {S A : Type 0} (b : Bool) (x y : Outcome A × S)
    → x.0 ≢ threw
    → y.0 ≢ threw
    → (if b then x else y).0 ≢ threw
if-Contains true x y h g = h
if-Contains false x y h g = g

pub pure-Contains : {S A : Type 0} (a : A) → Contains (pure {S = S} a)
pure-Contains a s e = cc e

-- The strategy's calls that the session makes outside any `try` do not throw.
pub record NeverThrows {S : Type 0} (strategy : StrategyIface S) : Type 0 where
  pub forgets_order : (ticker id : String) → Contains (strategy.forget_order ticker id)
  pub forgets_ticker : (ticker : String) → Contains (strategy.forget_ticker ticker)
  pub resets : Contains strategy.reset_quotes

module _ {W Q X : Type 0} where
  pub on_world-Contains :
      (call : Action (World W Q X) (Unit {0}))
      → Contains call
      → Contains (on_world {W = W} {Q = Q} {X = X} call)
  on_world-Contains call h s = h s.world

  pub change-Contains : (f : TradingSession W Q X → TradingSession W Q X) → Contains (change f)
  change-Contains f s e = cc e

  module _ (strategy : StrategyIface (World W Q X)) where
    try_update-Contains :
        (ticker : String) (book : Orderbook) (failed : ℤ)
        → Contains (try_update strategy ticker book failed)
    unfolding try_update
    try_update-Contains ticker book failed =
        try_catch-Contains (on_world (strategy.update ticker book))
          (change (start_cooldown ticker failed)) (change-Contains (start_cooldown ticker failed))

    pub on_delta-Contains :
        (ticker : String) (side : Side) (price_cents : ℤ) (qty : Quantity) (clock : ℤ × ℤ × ℤ)
        → Contains (on_delta strategy ticker side price_cents qty clock)
    unfolding on_delta
    on_delta-Contains ticker side price_cents qty (seen, checked, failed) s =
        let after = record_delta ticker side price_cents qty seen s in
        if-Contains (is_tracked after ticker) _ (done tt, after)
          (if-Contains (cools_down after ticker checked) (done tt, after) _ (threw_ne_done tt)
            (try_update-Contains ticker (book_of ticker after.ob_map) failed after))
          (threw_ne_done tt)

    pub seed_orderbook-Contains :
        (snapshot : Orderbook) (now : ℤ) → Contains (seed_orderbook strategy snapshot now)
    unfolding seed_orderbook
    seed_orderbook-Contains snapshot now s =
        try_catch-Contains (on_world (strategy.update snapshot.ticker (apply_snapshot snapshot)))
          (pure tt) (pure-Contains tt) (record_seed snapshot now s)

    pub add_market-Contains :
        (snapshot : Orderbook) (now : ℤ) → Contains (add_market strategy snapshot now)
    unfolding add_market
    add_market-Contains snapshot now s =
        seed_orderbook-Contains snapshot now (adopt snapshot.ticker s)

  module _ (om : OrderManagerIface W X) where
    cancel_market-Contains : (ticker : String) → Contains (cancel_market {Q = Q} om ticker)
    unfolding cancel_market
    cancel_market-Contains ticker =
        try_catch-Contains (on_orders (om.cancel_all ticker)) (pure tt) (pure-Contains tt)

    pub cancel_preexisting_orders-Contains :
        (resting_orders : List Order)
        → Contains (cancel_preexisting_orders {Q = Q} om resting_orders)
    unfolding cancel_preexisting_orders cancel_order_quietly
    cancel_preexisting_orders-Contains resting_orders =
        for_each-Contains resting_orders (cancel_order_quietly om) (λ order.
          try_catch-Contains (on_orders (om.cancel order.id) >>= λ _. pure tt) (pure tt)
            (pure-Contains tt))

    module _ (strategy : StrategyIface (World W Q X)) (calm : NeverThrows strategy) where
      pub cancel_all_quotes-Contains : Contains (cancel_all_quotes om strategy)
      unfolding cancel_all_quotes
      cancel_all_quotes-Contains s =
          elim (om.open_orders s.world.orders)
            as (λ orders.
              ((elim orders as (λ _. Action (TradingSession W Q X) (Unit {0})) [
                | [] ↦ pure tt
                | ◌∷◌ _ _ ↦ for_each s.tickers (cancel_market om)
              ]
                  >> on_world strategy.reset_quotes)
                s).0
              ≢ threw) [
                | [] ↦
                    then-Contains (pure tt) (on_world strategy.reset_quotes) (pure-Contains tt)
                      (on_world-Contains strategy.reset_quotes calm.resets) s
                | ◌∷◌ _ _ ↦
                    then-Contains (for_each s.tickers (cancel_market om))
                      (on_world strategy.reset_quotes)
                      (for_each-Contains s.tickers (cancel_market om) cancel_market-Contains)
                      (on_world-Contains strategy.reset_quotes calm.resets) s
              ]

      requote_idle-Contains :
          (clock : String → ℤ × ℤ × ℤ) (entry : String × Orderbook)
          → Contains (requote_idle om strategy clock entry)
      unfolding requote_idle
      requote_idle-Contains clock (ticker, book) s =
          let (confirmed_at, checked, failed) = clock ticker in
          if-Contains
            (not (feed_confirmed s ticker confirmed_at)
              || (rests_on ticker (om.open_orders s.world.orders) || cools_down s ticker checked))
            (done tt, s) _ (threw_ne_done tt) (try_update-Contains strategy ticker book failed s)

      pub requote_idle_markets-Contains :
          (clock : String → ℤ × ℤ × ℤ) → Contains (requote_idle_markets om strategy clock)
      unfolding requote_idle_markets
      requote_idle_markets-Contains clock s =
          if-Contains (is_halted s.world.risk) (done tt, s) _ (threw_ne_done tt)
            (for_each-Contains s.ob_map (requote_idle om strategy clock)
              (requote_idle-Contains clock) s)

      check_feed-Contains :
          (clock : String → ℤ) (ticker : String) → Contains (check_feed om strategy clock ticker)
      unfolding check_feed
      check_feed-Contains clock ticker s =
          if-Contains (feed_confirmed s ticker (clock ticker) || contains ticker s.feed_dead)
            (done tt, s) _ (threw_ne_done tt)
            (then-Contains (cancel_market om ticker) (on_world (strategy.forget_ticker ticker))
              (cancel_market-Contains ticker)
              (on_world-Contains (strategy.forget_ticker ticker) (calm.forgets_ticker ticker))
              (record s { feed_dead = add_member ticker s.feed_dead }))

      pub enforce_quote_safety-Contains :
          (clock : String → ℤ) → Contains (enforce_quote_safety om strategy clock)
      unfolding enforce_quote_safety
      enforce_quote_safety-Contains clock s =
          if-Contains (is_halted s.world.risk) _ _ (cancel_all_quotes-Contains s) (
            for_each-Contains s.tickers (check_feed om strategy clock) (check_feed-Contains clock)
              s)
