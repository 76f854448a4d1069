-- ===== src/Session/Reports.antt =====
-- The read side of source/engine/trading_session.cpp: marks, the portfolio snapshot and its check,
-- and the age of a book.
use Prim.Native.Nat.{suc, ◌/◌}
use kalshi_market_maker.Prelude.{
  ℤ, pos, negsuc, neg, ◌-ℤ◌, String, List, [], ◌∷◌, Option, none, some, if◌then◌else◌, Dict, lookup,
  insert, Action,
}
use kalshi_market_maker.Float.{Double}
use kalshi_market_maker.Types.{Orderbook}
use kalshi_market_maker.Book.Prices.{mid_price_cents}
use kalshi_market_maker.Portfolio.{PortfolioSnapshot, snapshot}
use kalshi_market_maker.Risk.{update_portfolio}
use kalshi_market_maker.Iface.{OrderManagerIface}
use kalshi_market_maker.Session.{TradingSession}

-- `duration_cast<seconds>`: towards zero.
unfoldable pub whole_seconds : ℤ → ℤ
whole_seconds (pos n) = pos (n / 1_000_000_000)
whole_seconds (negsuc n) = neg (pos (suc n / 1_000_000_000))

module _ {W Q X : Type 0} where
  unfoldable pub book_age : TradingSession W Q X → String → ℤ → Option ℤ
  unfolding whole_seconds
  book_age s ticker now = elim (lookup ticker s.last_book_update) [
    | none ↦ none
    | some seen ↦ some (whole_seconds (now -ℤ seen))
  ]

module _ {W X : Type 0} ⦃d : Double W⦄ (om : OrderManagerIface W X) where
  -- The mark of one market.
  unfoldable pub add_mark : Dict Orderbook → String → Dict ℤ → Dict ℤ
  add_mark books ticker marks = elim (lookup ticker books) [
    | none ↦ marks
    | some book ↦
        let mid : W = mid_price_cents book in
        if d.lt (d.of_int (pos 0)) mid then insert ticker (d.round_int mid) marks else marks
  ]

  unfoldable pub marks_of : Dict Orderbook → List String → Dict ℤ → Dict ℤ
  unfolding add_mark
  marks_of books [] marks = marks
  marks_of books (t ∷ ts) marks = marks_of books ts (add_mark books t marks)

module _ {W Q X : Type 0} ⦃d : Double W⦄ (om : OrderManagerIface W X) where
  unfoldable pub build_marks : TradingSession W Q X → Dict ℤ
  unfolding marks_of
  build_marks s = marks_of om s.ob_map s.tickers []

  unfoldable pub portfolio_snapshot : TradingSession W Q X → PortfolioSnapshot W
  unfolding build_marks
  portfolio_snapshot s = snapshot om s.world.orders s.tickers (build_marks s)

  unfoldable pub run_portfolio_risk : Action (TradingSession W Q X) (Unit {0})
  unfolding portfolio_snapshot
  run_portfolio_risk s =
      let (r, risk) = update_portfolio (portfolio_snapshot s) s.world.risk in
      (r, record s { world = record (s.world) { risk = risk } })
