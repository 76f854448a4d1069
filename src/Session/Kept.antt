-- ===== src/Session/Kept.antt =====
-- What the handlers of source/engine/trading_session.cpp do to the session, as a list of single
-- writes and calls.
use kalshi_market_maker.Prelude.{
  ℤ, Bool, true, false, String, List, [], ◌∷◌, Option, if◌then◌else◌, ◌≡◌, refl, Dict, Outcome,
  done, threw, panicked, Action, pure, ◌>>=◌, try_catch, for_each, with_panic_handler,
}
use kalshi_market_maker.Float.{Double}
use kalshi_market_maker.Quantity.{Quantity}
use kalshi_market_maker.Types.{Side, Orderbook, Fill, PublicTrade}
use kalshi_market_maker.Book.{apply_snapshot}
use kalshi_market_maker.Flow.{FlowImbalanceConfig, Fills}
use kalshi_market_maker.Tape.{TradeTapeConfig, TradeTape}
use kalshi_market_maker.Portfolio.{PortfolioSnapshot}
use kalshi_market_maker.Risk
use kalshi_market_maker.Iface.{OrderManagerIface, StrategyIface}
use kalshi_market_maker.Session.{
  World, TradingSession, add_member, book_of, is_tracked, feed_confirmed, cools_down, on_world,
  on_orders, change,
}
use kalshi_market_maker.Session.Feed.{
  on_snapshot, record_delta, record_seed, adopt, start_cooldown, try_update, on_delta, on_trade,
  seed_orderbook, add_market,
}
use kalshi_market_maker.Session.Safety.{remove_market_if_idle}

-- The action leaves the predicate as it was, also when it does not finish.
abbrev pub Keeps : {S A : Type 0} → (S → Type 0) → Action S A → Type 0
Keeps {S} P m = (s : S) → P s → P (m s).1

module _ {S : Type 0} (P : S → Type 0) where
  pub bind-Keeps :
      {A B : Type 0} (m : Action S A) (k : A → Action S B)
      → Keeps P m
      → ((a : A) → Keeps P (k a))
      → Keeps P (m >>= k)
  bind-Keeps {A} {B} m k h g s p = next (m s).0 (m s).1 (h s p)
    where
      next :
          (r : Outcome A) (t : S)
          → P t
          → P
              (elim r as (λ _. Outcome B × S) [
                | done a ↦ k a t
                | threw ↦ (threw, t)
                | panicked ↦ (panicked, t)
              ]).1
      next (done a) t q = g a t q
      next threw t q = q
      next panicked t q = q

  pub try_catch-Keeps :
      {A : Type 0} (m handler : Action S A)
      → Keeps P m
      → Keeps P handler
      → Keeps P (try_catch m handler)
  try_catch-Keeps {A} m handler h g s p = caught (m s).0 (m s).1 (h s p)
    where
      caught :
          (r : Outcome A) (t : S)
          → P t
          → P
              (elim r as (λ _. Outcome A × S) [
                | done a ↦ (done a, t)
                | threw ↦ handler t
                | panicked ↦ (panicked, t)
              ]).1
      caught (done a) t q = q
      caught threw t q = g t q
      caught panicked t q = q

  pub with_panic_handler-Keeps :
      {A : Type 0} (handler : Action S (Unit {0})) (m : Action S A)
      → Keeps P handler
      → Keeps P m
      → Keeps P (with_panic_handler handler m)
  with_panic_handler-Keeps {A} handler m g h s p = ended (m s).0 (m s).1 (h s p)
    where
      ended :
          (r : Outcome A) (t : S)
          → P t
          → P
              (elim r as (λ _. Outcome A × S) [
                | done a ↦ (done a, t)
                | threw ↦ (threw, t)
                | panicked ↦ (panicked, (handler t).1)
              ]).1
      ended (done a) t q = q
      ended threw t q = q
      ended panicked t q = g t q

  pub for_each-Keeps :
      {A : Type 0} (xs : List A) (body : A → Action S (Unit {0}))
      → ((x : A) → Keeps P (body x))
      → Keeps P (for_each xs body)
  unfolding for_each
  for_each-Keeps [] body h s p = p
  for_each-Keeps (x ∷ xs) body h s p =
      bind-Keeps (body x) (λ _. for_each xs body) (h x) (λ _. for_each-Keeps xs body h) s p

  pub if-Keeps :
      {A : Type 0} (b : Bool) (x y : A × S)
      → (b ≡ true → P x.1)
      → (b ≡ false → P y.1)
      → P (if b then x else y).1
  if-Keeps true x y h g = h refl
  if-Keeps false x y h g = g refl

module _ {W Q X : Type 0} ⦃d : Double W⦄ (om : OrderManagerIface W X)
    (strategy : StrategyIface (World W Q X)) (P : TradingSession W Q X → Type 0) where
  -- The writes and calls that handlers are made of.
  pub record IsKept : Type 0 where
    pub by_update :
        (ticker : String) (book : Orderbook) → Keeps P (on_world (strategy.update ticker book))
    pub by_forget_order :
        (ticker id : String) → Keeps P (on_world (strategy.forget_order ticker id))
    pub by_forget_ticker : (ticker : String) → Keeps P (on_world (strategy.forget_ticker ticker))
    pub by_reset : Keeps P (on_world strategy.reset_quotes)
    pub by_cancel : (id : String) → Keeps P (on_orders (om.cancel id))
    pub by_cancel_all : (ticker : String) → Keeps P (on_orders (om.cancel_all ticker))
    pub by_record_fill : (fill : Fill W) → Keeps P (on_orders (om.record_fill fill))
    pub by_refresh :
        (guard : Option (FlowImbalanceConfig W × Fills))
        → Keeps P (
            change (λ s. record s {
              world = record (s.world) {
                risk = Risk.update om s.world.orders s.tickers s.world.risk;
                flow_guard = guard;
              };
            }))
    pub by_portfolio :
        (snap : PortfolioSnapshot W)
        → Keeps P (
            change (λ s. record s {
              world = record (s.world) { risk = (Risk.update_portfolio snap s.world.risk).1 };
            }))
    pub by_tape :
        (tape : Option (TradeTapeConfig W × TradeTape))
        → Keeps P (change (λ s. record s { world = record (s.world) { trade_tape = tape } }))
    pub by_save : (totals : List (Dict W)) → Keeps P (change (λ s. record s { saved = totals }))
    pub by_cooldown : (until : Dict ℤ) → Keeps P (change (λ s. record s { cooldown_until = until }))
    pub by_snapshot : (book : Orderbook) (now : ℤ) → Keeps P (change (on_snapshot book now))
    pub by_delta :
        (ticker : String) (side : Side) (price_cents : ℤ) (qty : Quantity) (now : ℤ)
        → Keeps P (change (record_delta ticker side price_cents qty now))
    pub by_seed : (book : Orderbook) (now : ℤ) → Keeps P (change (record_seed book now))
    pub by_adopt : (ticker : String) → Keeps P (change (adopt ticker))
    pub by_drop : (ticker : String) → Keeps P (change (λ s. (remove_market_if_idle om ticker s).1))
    pub by_dead :
        (ticker : String) (now : ℤ) (s : TradingSession W Q X)
        → feed_confirmed s ticker now ≡ false
        → P s
        → P (record s { feed_dead = add_member ticker s.feed_dead })

  module _ (k : IsKept) where
    pub try_update-Keeps :
        (ticker : String) (book : Orderbook) (failed : ℤ)
        → Keeps P (try_update strategy ticker book failed)
    unfolding try_update start_cooldown
    try_update-Keeps ticker book failed =
        try_catch-Keeps P (on_world (strategy.update ticker book))
          (change (start_cooldown ticker failed)) (k.by_update ticker book)
          (λ s p. k.by_cooldown (start_cooldown ticker failed s).cooldown_until s p)

    pub on_delta-Keeps :
        (ticker : String) (side : Side) (price_cents : ℤ) (qty : Quantity) (clock : ℤ × ℤ × ℤ)
        → Keeps P (on_delta strategy ticker side price_cents qty clock)
    unfolding on_delta
    on_delta-Keeps ticker side price_cents qty (seen, checked, failed) s p =
        let after = record_delta ticker side price_cents qty seen s in
        let q = k.by_delta ticker side price_cents qty seen s p in
        if-Keeps P (is_tracked after ticker) _ (done tt, after)
          (λ _.
            if-Keeps P (cools_down after ticker checked) (done tt, after) _ (λ _. q)
              (λ _. try_update-Keeps ticker (book_of ticker after.ob_map) failed after q))
          (λ _. q)

    pub seed_orderbook-Keeps :
        (book : Orderbook) (now : ℤ) → Keeps P (seed_orderbook strategy book now)
    unfolding seed_orderbook
    seed_orderbook-Keeps book now s p =
        try_catch-Keeps P (on_world (strategy.update book.ticker (apply_snapshot book))) (pure tt)
          (k.by_update book.ticker (apply_snapshot book)) (λ _ q. q) (record_seed book now s)
          (k.by_seed book now s p)

    pub add_market-Keeps : (book : Orderbook) (now : ℤ) → Keeps P (add_market strategy book now)
    unfolding add_market
    add_market-Keeps book now s p =
        seed_orderbook-Keeps book now (adopt book.ticker s) (k.by_adopt book.ticker s p)

    pub on_trade-Keeps : (trade : PublicTrade) → Keeps P (change (on_trade trade))
    unfolding on_trade
    on_trade-Keeps trade s p = k.by_tape _ s p
