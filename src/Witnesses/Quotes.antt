-- ===== src/Witnesses/Quotes.antt =====
-- The theorems of the quoter at concrete inputs. Prices and sums are whole numbers here.
use kalshi_market_maker.Prelude.{
  ℤ, pos, ◌+ℤ◌, ◌*ℤ◌, false, String, [], some, Option, Action, panicked, ◌<ℤ◌, ◌-ℤ◌, ◌≡◌, refl,
  arith, lookup, get_or, ◌-ℤ◌,
}
use kalshi_market_maker.Float.Exact.{whole, whole-RoundsOutward}
use kalshi_market_maker.Quantity.{Quantity}
use kalshi_market_maker.Types.{Side, Order}
use kalshi_market_maker.Orders.Remote.{Live}
use kalshi_market_maker.Risk.{halt, is_halted, set_constraint, any_bit}
use kalshi_market_maker.Flow.{FlowImbalanceConfig, Entry, windowed_volume}
use kalshi_market_maker.Flow
use kalshi_market_maker.Pricing.{clearing_price_model}
use kalshi_market_maker.Quoter.{passive_bid, passive_ask, half, lmsr_skewed_fair_value}
use kalshi_market_maker.Quoter.Wanted.{Tools, raw_quotes, half_spread_for, lean}
use kalshi_market_maker.Quoter.Update.{Quoter, update_quotes}
use kalshi_market_maker.Quoter.Kept.{IsUncrossed, update_quotes-IsUncrossed}
use kalshi_market_maker.Quoter.Quiet.{with_other_calls, update_quotes-quiet}
use kalshi_market_maker.Quoter.Ordered.{raw_quotes_ordered, passive_quotes_ordered}
use kalshi_market_maker.Witnesses.{
  quotes, live, fresh_risk, manager_iface, guard, tape_config, empty_tape, quoter_config,
}

abbrev tools : Tools ℤ (Live ℤ (Unit {0}))
tools = record {
  config = quoter_config;
  model = clearing_price_model (pos 1);
  om = manager_iface;
  risk = fresh_risk;
  flow_guard = some (guard, []);
  trade_tape = some (tape_config, empty_tape);
  inventory_b_contracts = pos 75;
}

abbrev quoter : Quoter ℤ (Live ℤ (Unit {0}))
quoter = record { fv_ema = []; own_quotes = []; reduce_only = false; orders = live }

no_quotes-IsUncrossed : IsUncrossed quoter
unfolding get_or lookup
no_quotes-IsUncrossed t = refl

update_quotes-IsUncrossed_example :
    IsUncrossed (update_quotes tools "KXA-B-1" (pos 0) (pos 0) quotes quoter).1
update_quotes-IsUncrossed_example =
    update_quotes-IsUncrossed tools "KXA-B-1" (pos 0) (pos 0) quotes quoter no_quotes-IsUncrossed

raw_quotes_ordered_example :
    let raw = raw_quotes tools "KXA-B-1" (pos 0) (pos 45) (pos 0) in raw.0 <ℤ raw.1
unfolding half_spread_for half Flow.is_imbalanced windowed_volume lean lmsr_skewed_fair_value lookup
    ◌+ℤ◌ ◌-ℤ◌ ◌*ℤ◌
raw_quotes_ordered_example =
    raw_quotes_ordered tools "KXA-B-1" (pos 0) (pos 45) (pos 0) whole-RoundsOutward (ground arith)
      refl

passive_quotes_ordered_example : (pos 43 <ℤ pos 47) × ((pos 44 <ℤ pos 48) × (pos 43 <ℤ pos 48))
unfolding passive_bid passive_ask ◌+ℤ◌ ◌-ℤ◌
passive_quotes_ordered_example =
    passive_quotes_ordered (pos 43) (pos 48) (pos 44) (pos 47) (pos 43) (pos 48) (ground arith) refl
      refl

abbrev halted_tools : Tools ℤ (Live ℤ (Unit {0}))
halted_tools = record tools { risk = halt fresh_risk }

abbrev never_place : String → Side → ℤ → ℤ → Action (Live ℤ (Unit {0})) Order
never_place ticker side price size s = (panicked, s)

abbrev never_amend :
    String → String → Side → ℤ → Quantity → Action (Live ℤ (Unit {0})) (Option String)
never_amend id ticker side price size s = (panicked, s)

update_quotes-quiet_example :
    update_quotes
      (with_other_calls never_place never_amend halted_tools)
      "KXA-B-1"
      (pos 0)
      (pos 0)
      quotes
      quoter
    ≡ update_quotes halted_tools "KXA-B-1" (pos 0) (pos 0) quotes quoter
unfolding halt set_constraint is_halted any_bit
update_quotes-quiet_example =
    update_quotes-quiet halted_tools never_place never_amend "KXA-B-1" (pos 0) (pos 0) refl quotes
      quoter
