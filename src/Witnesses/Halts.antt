-- ===== src/Witnesses/Halts.antt =====
-- The theorems of the risk manager at concrete inputs.
use kalshi_market_maker.Prelude.{ℤ, pos, negsuc, true, false, ◌||◌, [], ◌≡◌, ◌↔◌, refl, done}
use kalshi_market_maker.Float.Exact.{whole}
use kalshi_market_maker.Types.{buys_yes, buys_no}
use kalshi_market_maker.Portfolio.{PortfolioSnapshot}
use kalshi_market_maker.Risk.{
  halt, is_halted, set_constraint, any_bit, check_order, update_portfolio,
}
use kalshi_market_maker.Risk.Gate.{IsAllowed, check_order_iff}
use kalshi_market_maker.Risk.Latch.{
  start, next, marked, halt_holds, update_portfolio_halts, drawdown_breached, loss_breached,
  over_exposed,
}
use kalshi_market_maker.Witnesses.{fresh_risk, manager_iface}

check_order_iff_example :
    (check_order fresh_risk "KXA-B-1" buys_no (pos 55) (pos 5) ≡ true)
    ↔ IsAllowed fresh_risk "KXA-B-1" buys_no (pos 55) (pos 5)
check_order_iff_example = check_order_iff fresh_risk "KXA-B-1" buys_no (pos 55) (pos 5)

abbrev figures : PortfolioSnapshot ℤ
figures = record {
  total_realized_cents = negsuc 2999;
  total_unrealized_cents = pos 0;
  total_notional_cents = pos 1000;
  by_event = [];
}

update_portfolio_halts_example :
    ((update_portfolio figures fresh_risk).0 ≡ done tt)
    × (is_halted (update_portfolio figures fresh_risk).1 ≡ (
        drawdown_breached figures fresh_risk
        || (loss_breached figures fresh_risk
            || (over_exposed figures fresh_risk || is_halted fresh_risk))))
update_portfolio_halts_example = update_portfolio_halts figures fresh_risk refl refl

halt_holds_example :
    check_order (update_portfolio figures (halt fresh_risk)).1 "KXA-B-1" buys_yes (pos 44) (pos 1)
    ≡ false
unfolding halt set_constraint is_halted any_bit
halt_holds_example =
    halt_holds manager_iface {r = halt fresh_risk} (next start (marked figures)) refl "KXA-B-1"
      buys_yes (pos 44) (pos 1)
