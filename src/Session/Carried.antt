-- ===== src/Session/Carried.antt =====
-- The totals that `carried_totals` of source/engine/trading_session.cpp persists.
use kalshi_market_maker.Prelude.{
  Bool, not, ◌&&◌, ◌||◌, String, List, [], ◌∷◌, some, if◌then◌else◌, pos, ◌≡◌, refl, arith, Dict,
  lookup, insert, lookup-insert, has_key, has_key-insert, contains, str_eq_iff, Bool-cases, inl,
  inr,
}
use kalshi_market_maker.Float.{Double}
use kalshi_market_maker.Iface.{OrderManagerIface}
use kalshi_market_maker.Session.{TradingSession}
use kalshi_market_maker.Session.Trades.{prior_pnl_for, carry_tickers, carried_totals}

module _ {W X : Type 0} ⦃d : Double W⦄ (om : OrderManagerIface W X) (x : X)
    (prior_pnl : Dict W) where
  -- The market has made or lost something now or before.
  abbrev pub is_carried : String → Dict W → Bool
  is_carried t totals = not (d.eq (om.realized_pnl x t) (d.of_int (pos 0))) || has_key t totals

  abbrev pub carried : String → W
  carried t = d.add (prior_pnl_for prior_pnl t) (om.realized_pnl x t)

  lookup-carry_tickers :
      (k : String) (ts : List String) (totals : Dict W)
      → lookup k (carry_tickers om x prior_pnl ts totals)
        ≡ (if contains k ts && is_carried k totals then some (carried k) else lookup k totals)
  unfolding carry_tickers contains
  lookup-carry_tickers k [] totals = refl
  lookup-carry_tickers k (t ∷ ts) totals = elim (Bool-cases (is_carried t totals)) [
    | inl h ↦ rw h (
        ground (
          arith,
          lookup-carry_tickers k ts (insert t (carried t) totals),
          lookup-insert t k (carried t) totals,
          has_key-insert t k (carried t) totals,
          str_eq_iff t k,
          h,
        ))
    | inr h ↦ rw h (ground (arith, lookup-carry_tickers k ts totals, str_eq_iff t k, h))
  ]

module _ {W Q X : Type 0} ⦃d : Double W⦄ (om : OrderManagerIface W X)
    (s : TradingSession W Q X) where
  -- The total of a market is its prior profit plus that of the session if it is tracked and
  -- either the session profit is not zero or a prior one is known; every other market has its
  -- prior total.
  pub lookup-carried_totals :
      (ticker : String)
      → lookup ticker (carried_totals om s) ≡ (
          if contains ticker s.tickers
            && is_carried om s.world.orders s.prior_pnl ticker s.prior_pnl
          then some (carried om s.world.orders s.prior_pnl ticker)
          else lookup ticker s.prior_pnl)
  unfolding carried_totals
  lookup-carried_totals ticker =
      lookup-carry_tickers om s.world.orders s.prior_pnl ticker s.tickers s.prior_pnl
