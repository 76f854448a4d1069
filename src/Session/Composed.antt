-- ===== src/Session/Composed.antt =====
-- The quoter of source/strategy/quoter.cpp inside source/engine/trading_session.cpp.
use kalshi_market_maker.Prelude.{
  true, false, String, Option, none, some, Dict, lookup, insert, get_or, get_or-insert,
  get_or-erase, Bool-cases, inl, inr, str_eq, ◌≡◌, refl, arith, if◌then◌else◌,
}
use kalshi_market_maker.Float.{Double}
use kalshi_market_maker.Types.{Fill}
use kalshi_market_maker.Pricing.{PricingModel}
use kalshi_market_maker.Iface.{OrderManagerIface, StrategyIface}
use kalshi_market_maker.Risk.{is_halted}
use kalshi_market_maker.Risk.Latch.{halted-update, halted-update_portfolio}
use kalshi_market_maker.Quoter
use kalshi_market_maker.Quoter.{QuoterConfig, OwnQuote, no_quote, is_blank}
use kalshi_market_maker.Quoter.Update
use kalshi_market_maker.Quoter.Crossing.{crossed}
use kalshi_market_maker.Quoter.Kept.{IsUncrossed, update_quotes-IsUncrossed}
use kalshi_market_maker.Quoter.Behind.{halted-keeps}
use kalshi_market_maker.Session.{World, TradingSession}
use kalshi_market_maker.Session.OnWorld.{IsKeptWorld, Reach-world}
use kalshi_market_maker.Session.Quoting.{Quoting, quoter_of, tools_of, quote_market, quoting}
use kalshi_market_maker.Session.Events.{Reach}

-- No pair of our resting quotes meets.
abbrev IsUncrossedBy : Dict OwnQuote → Type 0
IsUncrossedBy quotes = (t : String) → crossed (get_or t no_quote quotes) ≡ false

forget_ticker-IsUncrossed :
    (ticker : String) (quotes : Dict OwnQuote)
    → IsUncrossedBy quotes
    → IsUncrossedBy (Quoter.forget_ticker ticker quotes)
unfolding Quoter.forget_ticker
forget_ticker-IsUncrossed ticker quotes h t = elim (Bool-cases (str_eq ticker t)) [
  | inl e ↦ rw get_or-erase (rw e refl)
  | inr e ↦ rw get_or-erase (rw e (h t))
]

forgotten-crossed :
    (own : OwnQuote) (id : String)
    → crossed own ≡ false
    → crossed (record own {
      bid_order_id = if str_eq own.bid_order_id id then "" else own.bid_order_id;
      ask_order_id = if str_eq own.ask_order_id id then "" else own.ask_order_id;
    })
      ≡ false
forgotten-crossed own id h = elim (Bool-cases (str_eq own.bid_order_id id)) [
  | inl e ↦ rw e refl
  | inr e ↦ elim (Bool-cases (str_eq own.ask_order_id id)) [
    | inl g ↦ rw (e, g) (ground arith)
    | inr g ↦ rw (e, g) h
  ]
]

listed-crossed :
    (ticker : String) (own : OwnQuote) (quotes : Dict OwnQuote)
    → lookup ticker quotes ≡ some own
    → crossed (get_or ticker no_quote quotes) ≡ false
    → crossed own ≡ false
unfolding get_or
listed-crossed ticker own quotes e = rw (e, get_or) (λ h. h)

forget_order-IsUncrossed :
    (ticker id : String) (quotes : Dict OwnQuote)
    → IsUncrossedBy quotes
    → IsUncrossedBy (Quoter.forget_order ticker id quotes)
unfolding Quoter.forget_order
forget_order-IsUncrossed ticker id quotes h t = found (lookup ticker quotes) refl
  where
    found :
        (own : Option OwnQuote)
        → lookup ticker quotes ≡ own
        → crossed (
            get_or t no_quote (elim own as (λ _. Dict OwnQuote) [
              | none ↦ quotes
              | some own ↦
                  insert ticker
                    (record own {
                      bid_order_id = if str_eq own.bid_order_id id then "" else own.bid_order_id;
                      ask_order_id = if str_eq own.ask_order_id id then "" else own.ask_order_id;
                    })
                    quotes
            ]))
          ≡ false
    found none e = h t
    found (some own) e = elim (Bool-cases (str_eq ticker t)) [
      | inl g ↦
          rw get_or-insert
            (rw g (forgotten-crossed own id (listed-crossed ticker own quotes e (h ticker))))
      | inr g ↦ rw get_or-insert (rw g (h t))
    ]

module _ {W X : Type 0} ⦃d : Double W⦄ (config : QuoterConfig W) (model : PricingModel W)
    (om : OrderManagerIface W X) (inventory_b_contracts : W) where
  abbrev strategy : StrategyIface (World W (Quoting W) X)
  strategy = quoting config model om inventory_b_contracts

  uncrossed : IsKeptWorld om strategy (λ w. IsUncrossed (quoter_of w))
  unfolding quoting quote_market Update.reset_quotes get_or lookup
  uncrossed = record {
    by_update = λ ticker book w h.
        let clock = w.strategy_state.readings w.strategy_state.updates in
        update_quotes-IsUncrossed (tools_of config model om inventory_b_contracts w) ticker clock.0
          clock.1 book (quoter_of w) h;
    by_forget_order = λ ticker id w. forget_order-IsUncrossed ticker id w.strategy_state.own_quotes;
    by_forget_ticker = λ ticker w. forget_ticker-IsUncrossed ticker w.strategy_state.own_quotes;
    by_reset = λ w h t. refl;
    by_cancel = λ id w h. h;
    by_cancel_all = λ ticker w h. h;
    by_record_fill = λ fill w h. h;
    by_refresh = λ guard tickers w h. h;
    by_portfolio = λ snap w h. h;
    by_tape = λ tape w h. h;
  }

  -- If in no market our resting bid reaches our resting ask, the same holds after any events
  -- of the session with its quoter, whatever the order manager answers or throws.
  pub Reach-IsUncrossed :
      {s t : TradingSession W (Quoting W) X}
      → Reach om strategy s t
      → IsUncrossed (quoter_of s.world)
      → IsUncrossed (quoter_of t.world)
  Reach-IsUncrossed r = Reach-world om strategy (λ w. IsUncrossed (quoter_of w)) uncrossed r

  module _ (G : X → Type 0) (by_cancel : (id : String) (x : X) → G x → G (om.cancel id x).1)
      (by_cancel_all : (ticker : String) (x : X) → G x → G (om.cancel_all ticker x).1)
      (by_record_fill : (fill : Fill W) (x : X) → G x → G (om.record_fill fill x).1) where
    abbrev Quiet : World W (Quoting W) X → Type 0
    Quiet w = (is_halted w.risk ≡ true) × G w.orders

    quiet : IsKeptWorld om strategy Quiet
    unfolding quoting quote_market Update.reset_quotes
    quiet = record {
      by_update = λ ticker book w (closed, g).
          let clock = w.strategy_state.readings w.strategy_state.updates in
          (
            closed,
            halted-keeps (tools_of config model om inventory_b_contracts w) ticker clock.0 clock.1 G
                by_cancel closed book (quoter_of w) g,
          );
      by_forget_order = λ ticker id w h. h;
      by_forget_ticker = λ ticker w h. h;
      by_reset = λ w h. h;
      by_cancel = λ id w (closed, g). (closed, by_cancel id w.orders g);
      by_cancel_all = λ ticker w (closed, g). (closed, by_cancel_all ticker w.orders g);
      by_record_fill = λ fill w (closed, g). (closed, by_record_fill fill w.orders g);
      by_refresh =
          λ guard tickers w (closed, g). (halted-update om w.orders tickers w.risk closed, g);
      by_portfolio = λ snap w (closed, g). (halted-update_portfolio om snap w.risk closed, g);
      by_tape = λ tape w h. h;
    }

    -- If trading is halted, whatever holds of the state behind the order manager and is kept
    -- by its cancel, cancel_all and record_fill still holds after any events of the session
    -- with its quoter, and trading is still halted: no event places or amends.
    pub Reach-halted :
        {s t : TradingSession W (Quoting W) X}
        → Reach om strategy s t
        → is_halted s.world.risk ≡ true
        → G s.world.orders
        → (is_halted t.world.risk ≡ true) × G t.world.orders
    Reach-halted r h g = Reach-world om strategy Quiet quiet r (h, g)
