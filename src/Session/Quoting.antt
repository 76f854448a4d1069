-- ===== src/Session/Quoting.antt =====
-- `Quoter` of source/strategy/quoter.cpp as the strategy of source/engine/trading_session.cpp, as
-- source/app/main.cpp wires them: both hold the same risk manager, flow guard and trade tape.
use Prim.Native.Nat.{suc}
use kalshi_market_maker.Prelude.{ℕ, ℤ, Bool, String, Dict, Action, done}
use kalshi_market_maker.Float.{Double}
use kalshi_market_maker.Types.{Orderbook}
use kalshi_market_maker.Pricing.{PricingModel}
use kalshi_market_maker.Iface.{OrderManagerIface, StrategyIface}
use kalshi_market_maker.Quoter
use kalshi_market_maker.Quoter.{QuoterConfig, OwnQuote}
use kalshi_market_maker.Quoter.Wanted.{Tools}
use kalshi_market_maker.Quoter.Update
use kalshi_market_maker.Quoter.Update.{Quoter, update_quotes}
use kalshi_market_maker.Session.{World}

-- What a quoter keeps, and the clock: the system and the steady reading of each update to come.
pub record Quoting (W : Type 0) : Type 0 where
  pub fv_ema : Dict W
  pub own_quotes : Dict OwnQuote
  pub reduce_only : Bool
  pub readings : ℕ → ℤ × ℤ
  pub updates : ℕ

module _ {W X : Type 0} where
  abbrev pub quoter_of : World W (Quoting W) X → Quoter W X
  quoter_of w = record {
    fv_ema = w.strategy_state.fv_ema;
    own_quotes = w.strategy_state.own_quotes;
    reduce_only = w.strategy_state.reduce_only;
    orders = w.orders;
  }

  abbrev pub put_back : Quoter W X → World W (Quoting W) X → World W (Quoting W) X
  put_back q w = record w {
    strategy_state = record (w.strategy_state) {
      fv_ema = q.fv_ema;
      own_quotes = q.own_quotes;
      reduce_only = q.reduce_only;
    };
    orders = q.orders;
  }

  abbrev pub on_quotes :
      (Dict OwnQuote → Dict OwnQuote) → World W (Quoting W) X → World W (Quoting W) X
  on_quotes f w = record w {
    strategy_state = record (w.strategy_state) { own_quotes = f w.strategy_state.own_quotes };
  }

  module _ ⦃d : Double W⦄ (config : QuoterConfig W) (model : PricingModel W)
      (om : OrderManagerIface W X) (inventory_b_contracts : W) where
    abbrev pub tools_of : World W (Quoting W) X → Tools W X
    tools_of w = record {
      config = config;
      model = model;
      om = om;
      risk = w.risk;
      flow_guard = w.flow_guard;
      trade_tape = w.trade_tape;
      inventory_b_contracts = inventory_b_contracts;
    }

    unfoldable pub quote_market : String → Orderbook → Action (World W (Quoting W) X) (Unit {0})
    quote_market ticker book w =
        let (wall_now, now) = w.strategy_state.readings w.strategy_state.updates in
        let (r, q) = update_quotes (tools_of w) ticker wall_now now book (quoter_of w) in
        let after = put_back q w in
        (
          r,
          record after {
            strategy_state = record (after.strategy_state) {
              updates = suc after.strategy_state.updates;
            };
          },
        )

    unfoldable pub quoting : StrategyIface (World W (Quoting W) X)
    unfolding quote_market
    quoting = record {
      update = quote_market;
      forget_order =
          λ ticker order_id w. (done tt, on_quotes (Quoter.forget_order ticker order_id) w);
      forget_ticker = λ ticker w. (done tt, on_quotes (Quoter.forget_ticker ticker) w);
      reset_quotes = λ w. (done tt, put_back (Update.reset_quotes (quoter_of w)) w);
      set_reduce_only =
          λ reduce_only w. (done tt, put_back (Update.set_reduce_only reduce_only (quoter_of w)) w);
    }
