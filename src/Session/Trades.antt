-- ===== src/Session/Trades.antt =====
-- The fills of source/engine/trading_session.cpp: `on_fill`, `record_flatten`, and the profit that is
-- carried over. The analytics events are left out.
use kalshi_market_maker.Prelude.{
  pos, eqb_ℤ, Bool, true, false, not, ◌||◌, String, List, [], ◌∷◌, Option, none, some,
  if◌then◌else◌, Dict, insert, get_or, has_key, done, Action, ◌>>=◌, ◌>>◌, pure,
}
use kalshi_market_maker.Float.{Double}
use kalshi_market_maker.Quantity
use kalshi_market_maker.Types.{Order, Fill}
use kalshi_market_maker.Flow
use kalshi_market_maker.Flow.{FlowImbalanceConfig, Fills}
use kalshi_market_maker.Tape.{TradeTapeConfig, TradeTape, record_own_fill}
use kalshi_market_maker.Risk
use kalshi_market_maker.Iface.{OrderManagerIface, StrategyIface}
use kalshi_market_maker.Session.{World, TradingSession, is_tracked, on_orders, on_world, change}

abbrev pub feed_guard :
    {W : Type 0}
    → Fill W
    → Option (FlowImbalanceConfig W × Fills)
    → Option (FlowImbalanceConfig W × Fills)
feed_guard fill none = none
feed_guard fill (some (config, fills)) = some (
  config,
  Flow.record_fill config fill.market_ticker fill.side fill.quantity fill.timestamp fills,
)

module _ {W : Type 0} ⦃d : Double W⦄ where
  abbrev pub prior_pnl_for : Dict W → String → W
  prior_pnl_for prior_pnl ticker = get_or ticker (d.of_int (pos 0)) prior_pnl

  unfoldable pub flatten_fill : Order → Fill W
  flatten_fill order = record {
    trade_id = "";
    order_id = order.id;
    market_ticker = order.market_ticker;
    side = order.side;
    price_cents =
        if eqb_ℤ order.average_fill_price_cents (pos 0)
        then order.price_cents
        else order.average_fill_price_cents;
    quantity = order.filled_quantity;
    fee_cents = d.of_int (pos 0);
    is_taker = true;
    timestamp = order.created_at;
  }

module _ {W X : Type 0} ⦃d : Double W⦄ (om : OrderManagerIface W X) where
  -- The loop of `carried_totals`.
  unfoldable pub carry_tickers : X → Dict W → List String → Dict W → Dict W
  carry_tickers x prior_pnl [] totals = totals
  carry_tickers x prior_pnl (t ∷ ts) totals =
      let session_pnl = om.realized_pnl x t in
      carry_tickers x prior_pnl ts (
        if not (d.eq session_pnl (d.of_int (pos 0))) || has_key t totals
        then insert t (d.add (prior_pnl_for prior_pnl t) session_pnl) totals
        else totals)

module _ {W Q X : Type 0} ⦃d : Double W⦄ where
  -- `record_own_fill` on the tape, if there is one.
  unfoldable pub mark_own : Fill W → TradingSession W Q X → TradingSession W Q X
  mark_own fill s = record s {
    world = record (s.world) {
      trade_tape = elim s.world.trade_tape as (λ _. Option (TradeTapeConfig W × TradeTape)) [
        | none ↦ none
        | some (config, tape) ↦ some (config, record_own_fill fill.trade_id tape)
      ];
    };
  }

  module _ (om : OrderManagerIface W X) where
    unfoldable pub carried_totals : TradingSession W Q X → Dict W
    unfolding carry_tickers
    carried_totals s = carry_tickers om s.world.orders s.prior_pnl s.tickers s.prior_pnl

    -- `if (pnl_listener_) { pnl_listener_(carried_totals()); }`
    unfoldable pub notify : TradingSession W Q X → TradingSession W Q X
    notify s = record s { saved = if s.has_listener then carried_totals s ∷ s.saved else s.saved }

    unfoldable pub record_flatten : Order → Action (TradingSession W Q X) (Unit {0})
    unfolding flatten_fill
    record_flatten order s =
        if Quantity.is_positive order.filled_quantity
        then (on_orders (om.record_fill (flatten_fill order)) >>= λ _. change notify) s
        else (done tt, s)

    unfoldable pub settle_fill : Fill W → TradingSession W Q X → TradingSession W Q X
    settle_fill fill s = notify (record s {
      world = record (s.world) {
        risk = Risk.update om s.world.orders s.tickers s.world.risk;
        flow_guard = feed_guard fill s.world.flow_guard;
      };
    })

    module _ (strategy : StrategyIface (World W Q X)) where
      -- What follows a newly recorded fill: the strategy forgets an order that is no longer open, and
      -- the risk manager, the flow guard and the listener hear of the fill.
      unfoldable pub after_fill : Fill W → Action (TradingSession W Q X) (Unit {0})
      unfolding settle_fill
      after_fill fill s =
          ((if has_key fill.order_id (om.open_orders s.world.orders)
                then pure tt
                else on_world (strategy.forget_order fill.market_ticker fill.order_id))
              >> change (settle_fill fill))
            s

      unfoldable pub on_fill : Fill W → Action (TradingSession W Q X) Bool
      on_fill fill s =
          let marked = mark_own fill s in
          if is_tracked marked fill.market_ticker
          then (do
            recorded ← on_orders (om.record_fill fill)
            if recorded then after_fill fill >> pure true else pure false)
              marked
          else (done false, marked)
