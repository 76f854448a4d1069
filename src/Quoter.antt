-- ===== src/Quoter.antt =====
-- source/strategy/quoter.cpp: `Quoter`, the configuration, what it keeps of each market, and the
-- prices it wants. The clocks are arguments, in nanoseconds.
pub mod Refresh
pub mod Calls
pub mod Behind
pub mod Crossing
pub mod AskCrossing
pub mod Wanted
pub mod Ordered
pub mod Update
pub mod Kept
pub mod Halted
pub mod Quiet
use Prim.Native.Nat.{suc, ◌/◌}
use kalshi_market_maker.Prelude.{
  ℤ, pos, negsuc, neg, ◌+ℤ◌, ◌-ℤ◌, ◌*ℤ◌, min_ℤ, max_ℤ, ltb_ℤ, leb_ℤ, Bool, true, false, not, ◌||◌,
  ◌&&◌, String, Option, none, some, Dict, if◌then◌else◌, str_eq, lookup, insert, erase,
}
use kalshi_market_maker.Float.{Double, fmax}
use kalshi_market_maker.Risk.{RiskLimits}

-- `QuoterConfig`: the fields that `Quoter` reads.
pub record QuoterConfig (W : Type 0) : Type 0 where
  pub target_spread_cents : ℤ
  pub reprice_threshold_cents : ℤ
  pub quote_size : ℤ
  pub imbalance_spread_cents : ℤ
  pub min_spread_cents : ℤ
  pub min_rest_ms : ℤ
  pub theo_jump_cents : ℤ
  pub fade_rest_ms : ℤ
  pub longshot_price_threshold_cents : ℤ
  pub longshot_edge_cents : ℤ
  pub fv_ema_alpha : W
  pub flow_lean_cents : W
  pub tape_half_life_seconds : ℤ
  pub inventory_cap_lots : ℤ
  pub unwind_edge_cents : W
  pub maker_fee_rate : W

-- `Quoter::OwnQuote`
pub record OwnQuote : Type 0 where
  pub bid_order_id : String
  pub ask_order_id : String
  pub quoted_bid_cents : ℤ
  pub quoted_ask_cents : ℤ
  pub bid_placed_at : ℤ
  pub ask_placed_at : ℤ
  pub bid_fade_pending : Bool
  pub ask_fade_pending : Bool

abbrev pub no_quote : OwnQuote
no_quote = record {
  bid_order_id = "";
  ask_order_id = "";
  quoted_bid_cents = pos 0;
  quoted_ask_cents = pos 0;
  bid_placed_at = pos 0;
  ask_placed_at = pos 0;
  bid_fade_pending = false;
  ask_fade_pending = false;
}

abbrev pub is_blank : String → Bool
is_blank id = str_eq id ""

abbrev pub bid_min_cents : ℤ
bid_min_cents = pos 1

abbrev pub bid_max_cents : ℤ
bid_max_cents = pos 98

abbrev pub ask_min_cents : ℤ
ask_min_cents = pos 2

abbrev pub ask_max_cents : ℤ
ask_max_cents = pos 99

-- `std::clamp` of an `int`.
abbrev pub clamp_ℤ : ℤ → ℤ → ℤ → ℤ
clamp_ℤ a lo hi = if ltb_ℤ a lo then lo else if ltb_ℤ hi a then hi else a

-- Integer division by 2, towards zero.
unfoldable pub half : ℤ → ℤ
half (pos n) = pos (n / 2)
half (negsuc n) = neg (pos (suc n / 2))

unfoldable pub resting_too_young : ℤ → ℤ → ℤ → Bool
resting_too_young placed_at now rest_ms = ltb_ℤ (now -ℤ placed_at) (rest_ms *ℤ pos 1_000_000)

unfoldable pub passive_bid : ℤ → ℤ → Option ℤ
passive_bid desired_bid market_ask_cents =
    let max_passive = market_ask_cents -ℤ pos 1 in
    if ltb_ℤ max_passive bid_min_cents then none else some (min_ℤ desired_bid max_passive)

unfoldable pub passive_ask : ℤ → ℤ → Option ℤ
passive_ask desired_ask market_bid_cents =
    let min_passive = market_bid_cents +ℤ pos 1 in
    if ltb_ℤ ask_max_cents min_passive then none else some (max_ℤ desired_ask min_passive)

module _ {W : Type 0} ⦃d : Double W⦄ where
  abbrev pub hundred : W
  hundred = d.of_int (pos 100)

  unfoldable pub lmsr_b_from_risk : ℤ → ℤ → W
  lmsr_b_from_risk max_position_contracts max_quote_price_cents =
      let upper = d.of_int max_quote_price_cents in
      if leb_ℤ max_position_contracts (pos 0)
        || (d.le upper (d.div hundred (d.of_int (pos 2))) || d.le hundred upper)
      then d.infinity
      else d.div (d.of_int max_position_contracts) (d.log (d.div upper (d.sub hundred upper)))

  unfoldable pub lmsr_skewed_fair_value : W → W → W → W
  lmsr_skewed_fair_value fv_cents net_inventory_contracts b_contracts =
      if not (d.is_finite b_contracts) || d.eq net_inventory_contracts (d.of_int (pos 0))
      then fv_cents
      else let opposing_odds = d.sub (d.div hundred fv_cents) (d.of_int (pos 1)) in
        let shifted_odds =
          d.mul opposing_odds (d.exp (d.div net_inventory_contracts b_contracts)) in
        d.div hundred (d.add (d.of_int (pos 1)) shifted_odds)

  -- The constructor's `inventory_b_contracts_`.
  unfoldable pub inventory_b : QuoterConfig W → RiskLimits W → W
  inventory_b config limits =
      fmax (lmsr_b_from_risk limits.max_position_per_market limits.max_quote_price_cents)
        (d.mul (d.of_int (pos 25)) (d.of_int config.quote_size))

  unfoldable pub compute_quotes : W → ℤ → ℤ × ℤ
  compute_quotes fv_cents half_spread =
      let bid_val = d.floor_int (d.sub fv_cents (d.of_int half_spread)) in
      let ask_val = d.ceil_int (d.add fv_cents (d.of_int half_spread)) in
      (clamp_ℤ bid_val bid_min_cents bid_max_cents, clamp_ℤ ask_val ask_min_cents ask_max_cents)

-- `forget_ticker` and `forget_order`, on `own_quotes_`.
unfoldable pub forget_ticker : String → Dict OwnQuote → Dict OwnQuote
forget_ticker ticker quotes = erase ticker quotes

unfoldable pub forget_order : String → String → Dict OwnQuote → Dict OwnQuote
forget_order ticker order_id quotes = elim (lookup ticker quotes) [
  | none ↦ quotes
  | some own ↦
      let bid = if str_eq own.bid_order_id order_id then "" else own.bid_order_id in
      let ask = if str_eq own.ask_order_id order_id then "" else own.ask_order_id in
      insert ticker (record own { bid_order_id = bid; ask_order_id = ask }) quotes
]
