-- ===== src/Session/Replayed.antt =====
-- A fill that arrives twice, in source/engine/trading_session.cpp over its order manager and its quoter.
use kalshi_market_maker.Prelude.{
  Bool, true, false, not, ◌&&◌, contains, has_key, if◌then◌else◌, Bool-cases, inl, inr, ◌≡◌, refl,
  ap, sym, ◌∙◌, Outcome, done, ◌>>◌, pure,
}
use kalshi_market_maker.Float.{Double}
use kalshi_market_maker.Types.{Fill}
use kalshi_market_maker.Pricing.{PricingModel}
use kalshi_market_maker.Orders.{fill_key, apply_fill}
use kalshi_market_maker.Orders.Fills.{IsValidFill}
use kalshi_market_maker.Orders.Remote.{RestClient, Live}
use kalshi_market_maker.Orders.Implements.{order_manager}
use kalshi_market_maker.Iface.{OrderManagerIface, StrategyIface}
use kalshi_market_maker.Quoter.{QuoterConfig}
use kalshi_market_maker.Session.{World, TradingSession, is_tracked, on_world, change}
use kalshi_market_maker.Session.Trades.{mark_own, notify, settle_fill, after_fill, on_fill}
use kalshi_market_maker.Session.Answers.{seen, on_fill_answer}
use mathlib.Core.Path.{subst}
use kalshi_market_maker.Session.Quoting.{Quoting, quoting}
use kalshi_market_maker.Session.Marked.{
  known_fill, new_fill, now_known, own_tape, mark_own_fixed, marked_tape, tracked_marked,
  orders_marked,
}

module _ {W R : Type 0} ⦃d : Double W⦄ (config : QuoterConfig W) (model : PricingModel W)
    (rest : RestClient R) (inventory_b_contracts : W) (fill : Fill W) where
  abbrev om : OrderManagerIface W (Live W R)
  om = order_manager rest

  abbrev strategy : StrategyIface (World W (Quoting W) (Live W R))
  strategy = quoting config model om inventory_b_contracts

  -- What a counted fill leaves: an answer, and a session that knows the fill.
  abbrev IsCounted : Outcome Bool × TradingSession W (Quoting W) (Live W R) → Type 0
  IsCounted (r, s) =
      (r ≡ done true)
      × (own_tape fill s.world.trade_tape ≡ s.world.trade_tape)
      × (is_tracked s fill.market_ticker ≡ true)
      × (contains (fill_key fill) s.world.orders.manager.seen_fills ≡ true)

  module _ (s : TradingSession W (Quoting W) (Live W R)) where
    passed_over :
        is_tracked s fill.market_ticker ≡ false
        → on_fill om strategy fill s ≡ (done false, mark_own fill s)
    unfolding on_fill
    passed_over away = rw (tracked_marked fill s fill.market_ticker, away)

    module _ (ours : is_tracked s fill.market_ticker ≡ true) (valid : IsValidFill fill) where
      refused :
          contains (fill_key fill) s.world.orders.manager.seen_fills ≡ true
          → on_fill om strategy fill s ≡ (done false, mark_own fill s)
      unfolding mark_own
      refused old =
          let live = s.world.orders in
          on_fill_answer om strategy fill s (done false, live)
            (ap (λ r. (r.0, record live { manager = r.1 }))
              (known_fill fill live.manager valid old))
            ours

      abbrev booked : Live W R
      booked = record (s.world.orders) { manager = apply_fill fill s.world.orders.manager }

      abbrev session : TradingSession W (Quoting W) (Live W R)
      session = seen om strategy fill s booked

      reacted :
          (known : Bool)
          → IsCounted (
              ((if known
                    then pure tt
                    else on_world (strategy.forget_order fill.market_ticker fill.order_id))
                  >> change (settle_fill om fill)
                  >> pure true)
                session)
      unfolding is_tracked mark_own settle_fill notify quoting
      reacted true = (refl, marked_tape fill s, ours, now_known fill s.world.orders.manager)
      reacted false = (refl, marked_tape fill s, ours, now_known fill s.world.orders.manager)

      after_fill-IsCounted : IsCounted ((after_fill om strategy fill >> pure true) session)
      unfolding after_fill
      after_fill-IsCounted = reacted (has_key fill.order_id (om.open_orders session.world.orders))

      counted :
          contains (fill_key fill) s.world.orders.manager.seen_fills ≡ false
          → IsCounted (on_fill om strategy fill s)
      counted fresh =
          let live = s.world.orders in
          subst IsCounted
            (sym (
              on_fill_answer om strategy fill s (done true, booked)
                (ap (λ r. (r.0, record live { manager = r.1 }))
                  (new_fill fill live.manager valid fresh))
                ours))
            after_fill-IsCounted

    -- The same fill again.
    again :
        own_tape fill s.world.trade_tape ≡ s.world.trade_tape
        → IsValidFill fill
        → (is_tracked s fill.market_ticker ≡ true
            → contains (fill_key fill) s.world.orders.manager.seen_fills ≡ true)
        → on_fill om strategy fill s ≡ (done false, s)
    again own valid old = elim (Bool-cases (is_tracked s fill.market_ticker)) [
      | inl ours ↦
          refused ours valid (old ours) ∙ ap (λ t. (done false, t)) (mark_own_fixed fill s own)
      | inr away ↦ passed_over away ∙ ap (λ t. (done false, t)) (mark_own_fixed fill s own)
    ]

  -- A valid fill is counted exactly when its market is tracked and its key is new. When the
  -- same fill arrives again it is not counted, and the session, its quoter, its order manager
  -- and its tape stay as the first arrival left them.
  pub on_fill_replayed :
      (s : TradingSession W (Quoting W) (Live W R))
      → IsValidFill fill
      → let first = on_fill om strategy fill s in
        (first.0
          ≡ done (
              is_tracked s fill.market_ticker
              && not (contains (fill_key fill) s.world.orders.manager.seen_fills)))
        × (on_fill om strategy fill first.1 ≡ (done false, first.1))
  on_fill_replayed s valid = elim (Bool-cases (is_tracked s fill.market_ticker)) [
    | inr away ↦
        rw (passed_over s away, away)
          (
            refl,
            again (mark_own fill s) (marked_tape fill s) valid
                (λ ours. cc (ours, away, tracked_marked fill s fill.market_ticker)),
          )
    | inl ours ↦ elim (Bool-cases (contains (fill_key fill) s.world.orders.manager.seen_fills)) [
      | inl old ↦
          rw (refused s ours valid old, ours, old)
            (
              refl,
              again (mark_own fill s) (marked_tape fill s) valid
                  (λ _. rw (orders_marked fill s) old),
            )
      | inr fresh ↦
          let (counts, own, _, known) = counted s ours valid fresh in
          (rw (ours, fresh) counts, again (on_fill om strategy fill s).1 own valid (λ _. known))
    ]
  ]
