-- ===== src/Risk.antt =====
-- source/engine/risk_manager.cpp: the constraint bits, the pre-trade gate and the portfolio
-- kill-switch. The order manager is read through its interface.
pub mod Gate
pub mod Latch
use Prim.Native.String.{◌++◌}
use kalshi_market_maker.Iface.{OrderManagerIface}
use kalshi_market_maker.Portfolio.{PortfolioSnapshot, total_pnl_cents}
use kalshi_market_maker.Prelude.{
  ℕ, zero, suc, ◌==◌, ℤ, pos, ◌+ℤ◌, neg, ltb_ℤ, leb_ℤ, Bool, true, false, not, ◌&&◌, ◌||◌, String,
  List, [], ◌∷◌, Option, none, some, if◌then◌else◌, Dict, insert, get_or, str_eq, ◌+◌, Outcome,
  done, panicked, Action, ensure, ◌>>◌, ◌>>=◌,
}
use kalshi_market_maker.Float.{Double, fmax}
use kalshi_market_maker.Quantity
use kalshi_market_maker.Quantity.{Quantity, zero_quantity, from_contracts}
use kalshi_market_maker.Types.{Side, buys_yes, buys_no, Order}

pub data Constraint : Type 0 where
  pnl_limit position_limit open_order_limit high_fill_rate stale_book model_diverge manual_halt
        connectivity over_exposure portfolio_loss drawdown :
      Constraint

pub record RiskLimits (W : Type 0) : Type 0 where
  pub max_position_per_market : ℤ
  pub max_open_orders_per_market : ℤ
  pub max_order_size : ℤ
  pub daily_loss_limit : W
  pub max_total_exposure_dollars : W
  pub max_total_loss_dollars : W
  pub min_quote_price_cents : ℤ
  pub max_quote_price_cents : ℤ
  pub max_drawdown_dollars : W

-- The value of the enumerator, which indexes the bit.
abbrev pub index : Constraint → ℕ
index pnl_limit = 0
index position_limit = 1
index open_order_limit = 2
index high_fill_rate = 3
index stale_book = 4
index model_diverge = 5
index manual_halt = 6
index connectivity = 7
index over_exposure = 8
index portfolio_loss = 9
index drawdown = 10

abbrev pub num_constraints : ℕ
num_constraints = 11

-- `std::bitset`, bit by bit.
abbrev pub Bits : Type 0
Bits = ℕ → Bool

abbrev pub no_bits : Bits
no_bits _ = false

abbrev pub set_bit : ℕ → Bits → Bits
set_bit i bits j = if i == j then true else bits j

abbrev pub reset_bit : ℕ → Bits → Bits
reset_bit i bits j = if i == j then false else bits j

-- `any()`
unfoldable pub any_bit : ℕ → Bits → Bool
any_bit zero bits = false
any_bit (suc n) bits = bits n || any_bit n bits

pub record RiskManager (W : Type 0) : Type 0 where
  pub limits : RiskLimits W
  pub constraints : Bits
  pub cached_position : Dict Quantity
  pub cached_open_order_count : Dict ℤ
  pub cached_total_pnl_cents : W
  pub peak_total_pnl_cents : W

abbrev pub constraint_name : ℕ → String
constraint_name i =
    if i == 0
    then "kPnLLimit"
    else if i == 1
    then "kPositionLimit"
    else if i == 2
    then "kOpenOrders"
    else if i == 3
    then "kHighFillRate"
    else if i == 4
    then "kStaleBook"
    else if i == 5
    then "kModelDiverge"
    else if i == 6
    then "kManualHalt"
    else if i == 7
    then "kConnectivity"
    else if i == 8
    then "kOverExposure"
    else if i == 9
    then "kPortfolioLoss"
    else "kDrawdown"

-- The loop of `active_constraints`, over the bits from `i` on, with `left` to go.
names_from : ℕ → ℕ → Bits → String → String
names_from zero i bits result = result
names_from (suc left) i bits result = names_from left (i + 1) bits (
    if bits i
    then (if str_eq result "" then result else result ++ " ") ++ constraint_name i
    else result)

-- `cached_open_order_count_[order.market_ticker]++` for each open order.
count_orders : Dict Order → Dict ℤ → Dict ℤ
count_orders [] m = m
count_orders ((_, o) ∷ orders) m =
    count_orders orders (insert o.market_ticker (get_or o.market_ticker (pos 0) m +ℤ pos 1) m)

-- `(side == Side::Yes) ? quantity : -quantity`
abbrev pub signed_size : Side → ℤ → ℤ
signed_size buys_yes quantity = quantity
signed_size buys_no quantity = neg quantity

module _ {W : Type 0} where
  unfoldable pub set_constraint : Constraint → RiskManager W → RiskManager W
  set_constraint c r = record r { constraints = set_bit (index c) r.constraints }

  unfoldable pub clear_constraint : Constraint → RiskManager W → RiskManager W
  clear_constraint c r = record r { constraints = reset_bit (index c) r.constraints }

  unfoldable pub is_set : RiskManager W → Constraint → Bool
  is_set r c = r.constraints (index c)

  unfoldable pub is_halted : RiskManager W → Bool
  unfolding any_bit
  is_halted r = any_bit num_constraints r.constraints

  unfoldable pub halt : RiskManager W → RiskManager W
  unfolding set_constraint
  halt r = set_constraint manual_halt r

  unfoldable pub active_constraints : RiskManager W → String
  unfolding names_from
  active_constraints r = names_from num_constraints 0 r.constraints ""

  -- The pre-trade check of an order.
  unfoldable pub check_order : RiskManager W → String → Side → ℤ → ℤ → Bool
  check_order r ticker side price quantity =
      if is_halted r
      then false
      else if ltb_ℤ r.limits.max_order_size quantity
      then false
      else if ltb_ℤ price r.limits.min_quote_price_cents
          || ltb_ℤ r.limits.max_quote_price_cents price
      then false
      else if leb_ℤ r.limits.max_open_orders_per_market
          (get_or ticker (pos 0) r.cached_open_order_count)
      then false
      else Quantity.le
          (Quantity.abs (
            Quantity.add (get_or ticker zero_quantity r.cached_position)
              (from_contracts (signed_size side quantity))))
          (from_contracts r.limits.max_position_per_market)

module _ {W : Type 0} ⦃d : Double W⦄ where
  abbrev pub cents_to_dollars : W
  cents_to_dollars = d.of_int (pos 100)

  -- `explicit RiskManager(RiskLimits limits)`
  abbrev pub new_risk_manager : RiskLimits W → RiskManager W
  new_risk_manager limits = record {
    limits = limits;
    constraints = no_bits;
    cached_position = [];
    cached_open_order_count = [];
    cached_total_pnl_cents = d.of_int (pos 0);
    peak_total_pnl_cents = d.of_int (pos 0);
  }

  abbrev set_if : Bool → Constraint → RiskManager W → RiskManager W
  set_if b c r = if b then set_constraint c r else r

  unfoldable pub resume : RiskManager W → RiskManager W
  resume r = record r { constraints = no_bits; peak_total_pnl_cents = d.lowest }

  -- `update_portfolio`, between its two `ensure`s and after them.
  unfoldable pub check_exposure : PortfolioSnapshot W → RiskManager W → RiskManager W
  unfolding set_constraint
  check_exposure snap r =
      set_if
        (d.lt r.limits.max_total_exposure_dollars
          (d.div snap.total_notional_cents cents_to_dollars))
        over_exposure r

  unfoldable pub check_pnl : PortfolioSnapshot W → RiskManager W → RiskManager W
  unfolding set_constraint
  check_pnl snap r =
      let total = total_pnl_cents snap in
      let lossy =
        set_if (d.lt (d.div total cents_to_dollars) r.limits.max_total_loss_dollars) portfolio_loss
          r in
      let peak = fmax r.peak_total_pnl_cents total in
      set_if (d.lt r.limits.max_drawdown_dollars (d.div (d.sub peak total) cents_to_dollars))
        drawdown (record lossy { peak_total_pnl_cents = peak })

  unfoldable pub update_portfolio : PortfolioSnapshot W → Action (RiskManager W) (Unit {0})
  update_portfolio snap = do
    ensure (d.is_finite snap.total_notional_cents)
    λ r. (done tt, check_exposure snap r)
    ensure (d.is_finite (total_pnl_cents snap))
    λ r. (done tt, check_pnl snap r)

  module _ {S : Type 0} (om : OrderManagerIface W S) where
    -- The loop over the tickers: their positions, and the sum of their realized PnL.
    cache_tickers : S → List String → RiskManager W → RiskManager W
    cache_tickers s [] r = r
    cache_tickers s (t ∷ ts) r = cache_tickers s ts (record r {
      cached_position = insert t (om.net_position s t) r.cached_position;
      cached_total_pnl_cents = d.add r.cached_total_pnl_cents (om.realized_pnl s t);
    })

    unfoldable pub update : S → List String → RiskManager W → RiskManager W
    unfolding set_constraint cache_tickers count_orders
    update s tickers r =
        let cached = cache_tickers s tickers (record r {
          cached_position = [];
          cached_open_order_count = count_orders (om.open_orders s) [];
          cached_total_pnl_cents = d.of_int (pos 0);
        }) in
        set_if
          (d.lt (d.div cached.cached_total_pnl_cents cents_to_dollars) r.limits.daily_loss_limit)
          pnl_limit cached
