-- ===== src/Quoter/Wanted.antt =====
-- The prices that `update` of source/strategy/quoter.cpp wants: fair value, spread, lean, reservation
-- price and edges. `wall_now` is the system clock.
use kalshi_market_maker.Prelude.{
  ℤ, pos, ◌+ℤ◌, ◌-ℤ◌, min_ℤ, max_ℤ, ltb_ℤ, Bool, false, String, Option, none, some, if◌then◌else◌,
  Dict, lookup,
}
use kalshi_market_maker.Float.{Double}
use kalshi_market_maker.Types.{Side, buys_yes, buys_no, complement_price}
use kalshi_market_maker.Flow.{FlowImbalanceConfig, Fills, is_imbalanced, dominant_taker_side}
use kalshi_market_maker.Tape.{TradeTapeConfig, TradeTape, vwap_cents}
use kalshi_market_maker.Pricing.{PricingModel}
use kalshi_market_maker.Iface.{OrderManagerIface}
use kalshi_market_maker.Risk.{RiskManager}
use kalshi_market_maker.Quoter.{
  QuoterConfig, half, lmsr_skewed_fair_value, compute_quotes, hundred, bid_min_cents, ask_max_cents,
}

-- The references that the constructor and the setters take, `none` for a null pointer.
pub record Tools (W S : Type 0) : Type 0 where
  pub config : QuoterConfig W
  pub model : PricingModel W
  pub om : OrderManagerIface W S
  pub risk : RiskManager W
  pub flow_guard : Option (FlowImbalanceConfig W × Fills)
  pub trade_tape : Option (TradeTapeConfig W × TradeTape)
  pub inventory_b_contracts : W

module _ {W S : Type 0} ⦃d : Double W⦄ (tools : Tools W S) (ticker : String) (wall_now : ℤ) where
  abbrev pub zero_w : W
  zero_w = d.of_int (pos 0)

  abbrev imbalanced : Bool
  imbalanced = elim tools.flow_guard [
    | none ↦ false
    | some (guard, fills) ↦ is_imbalanced guard fills ticker wall_now
  ]

  unfoldable pub smooth : Dict W → W → W
  smooth fv_ema micro = elim (lookup ticker fv_ema) [
    | none ↦ micro
    | some ema ↦
        d.add (d.mul tools.config.fv_ema_alpha micro)
          (d.mul (d.sub (d.of_int (pos 1)) tools.config.fv_ema_alpha) ema)
  ]

  unfoldable pub fair_value : W → W
  fair_value smoothed_micro = tools.model.estimate (record {
    mid_cents = smoothed_micro;
    time_to_close_hours = d.of_int (pos 1_000);
    input_position = pos 0;
    external_prob = none;
    tape_vwap_cents = elim tools.trade_tape [
      | none ↦ none
      | some (config, tape) ↦
          vwap_cents config tape ticker tools.config.tape_half_life_seconds wall_now
    ];
  })

  unfoldable pub half_spread_for : W → ℤ
  unfolding half
  half_spread_for fair_val =
      let target_spread =
        if imbalanced
        then tools.config.target_spread_cents +ℤ tools.config.imbalance_spread_cents
        else tools.config.target_spread_cents in
      let base =
        max_ℤ (max_ℤ (pos 1) (half target_spread))
          (half (tools.config.min_spread_cents +ℤ pos 1)) in
      let prob = d.div fair_val hundred in
      let fee_cents =
        if d.lt zero_w tools.config.maker_fee_rate
        then d.round_int (
            d.mul (d.mul (d.mul tools.config.maker_fee_rate prob) (d.sub (d.of_int (pos 1)) prob))
              hundred)
        else pos 0 in
      base +ℤ fee_cents

  unfoldable pub lean : W → W
  lean fair_val =
      let taker_side : Option Side = elim tools.flow_guard [
        | none ↦ none
        | some (guard, fills) ↦
            if imbalanced then dominant_taker_side guard fills ticker wall_now else none
      ] in
      elim taker_side [
        | none ↦ fair_val
        | some side ↦ elim side [
          | buys_yes ↦ d.add fair_val tools.config.flow_lean_cents
          | buys_no ↦ d.add fair_val (d.negate tools.config.flow_lean_cents)
        ]
      ]

  -- {raw_bid, raw_ask} once the long-shot edge is added.
  unfoldable pub with_longshot_edge : ℤ × ℤ → ℤ × ℤ
  with_longshot_edge (bid, ask) =
      let config = tools.config in
      (
        (if ltb_ℤ bid config.longshot_price_threshold_cents
            then max_ℤ bid_min_cents (bid -ℤ config.longshot_edge_cents)
            else bid),
        (if ltb_ℤ (complement_price ask) config.longshot_price_threshold_cents
            then min_ℤ ask_max_cents (ask +ℤ config.longshot_edge_cents)
            else ask),
      )

  -- The side that unwinds the inventory is quoted at the reservation price.
  unfoldable pub with_unwind_edge : W → W → ℤ × ℤ → ℤ × ℤ
  with_unwind_edge inventory reservation (bid, ask) =
      let edge = tools.config.unwind_edge_cents in
      if d.lt zero_w inventory
      then (bid, max_ℤ (bid +ℤ pos 1) (d.ceil_int (d.add reservation edge)))
      else if d.lt inventory zero_w
      then (min_ℤ (ask -ℤ pos 1) (d.floor_int (d.sub reservation edge)), ask)
      else (bid, ask)

  unfoldable pub raw_quotes : W → W → ℤ × ℤ
  raw_quotes fair_val inventory =
      let reservation =
        lmsr_skewed_fair_value (lean fair_val) inventory tools.inventory_b_contracts in
      with_unwind_edge inventory reservation
        (with_longshot_edge (compute_quotes reservation (half_spread_for fair_val)))
