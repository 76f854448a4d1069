-- ===== src/Flow.antt =====
-- source/engine/flow_imbalance.cpp: `FlowImbalanceGuard`, our recent fills in each market. Time
-- points and the window are counts of clock ticks; `ticks_per_second` is the clock's.
pub mod Window
use kalshi_market_maker.Prelude.{
  ℤ, pos, ◌-ℤ◌, ◌*ℤ◌, ltb_ℤ, Bool, true, false, String, List, [], ◌∷◌, ◌++◌, Option, none, some,
  if◌then◌else◌, Dict, lookup, insert, erase, get_or,
}
use kalshi_market_maker.Float.{Double, fmax, fmin}
use kalshi_market_maker.Quantity
use kalshi_market_maker.Quantity.{Quantity, zero_quantity, contracts, from_contracts}
use kalshi_market_maker.Types.{Side, buys_yes, buys_no}

pub record FlowImbalanceConfig (W : Type 0) : Type 0 where
  pub window_seconds : ℤ
  pub imbalance_ratio_threshold : W
  pub min_flow_volume : ℤ

pub record Entry : Type 0 where
  pub when : ℤ
  pub side : Side
  pub quantity : Quantity

-- `std::chrono::system_clock` ticks in nanoseconds.
abbrev pub ticks_per_second : ℤ
ticks_per_second = pos 1_000_000_000

abbrev pub seconds : ℤ → ℤ
seconds n = n *ℤ ticks_per_second

-- `fills_`
abbrev pub Fills : Type 0
Fills = Dict (List Entry)

-- The loop that drops entries from the front.
unfoldable pub evict : ℤ → List Entry → List Entry
evict cutoff [] = []
evict cutoff (e ∷ es) = if ltb_ℤ e.when cutoff then evict cutoff es else e ∷ es

-- The two sums of the loop of `windowed_volume`, {yes, no}.
unfoldable pub sum_window : ℤ → List Entry → Quantity → Quantity → Quantity × Quantity
sum_window cutoff [] yes_volume no_volume = (yes_volume, no_volume)
sum_window cutoff (e ∷ es) yes_volume no_volume =
    if ltb_ℤ e.when cutoff then sum_window cutoff es yes_volume no_volume else elim e.side [
      | buys_yes ↦ sum_window cutoff es (Quantity.add yes_volume e.quantity) no_volume
      | buys_no ↦ sum_window cutoff es yes_volume (Quantity.add no_volume e.quantity)
    ]

module _ {W : Type 0} (config : FlowImbalanceConfig W) where
  unfoldable pub record_fill : String → Side → Quantity → ℤ → Fills → Fills
  unfolding evict
  record_fill ticker side quantity when fills =
      let entries =
        get_or ticker [] fills ++ (record { when = when; side = side; quantity = quantity } ∷ []) in
      insert ticker (evict (when -ℤ seconds config.window_seconds) entries) fills

  unfoldable pub windowed_volume : Fills → String → ℤ → Quantity × Quantity
  unfolding sum_window
  windowed_volume fills ticker now = elim (lookup ticker fills) [
    | none ↦ (zero_quantity, zero_quantity)
    | some entries ↦
        sum_window (now -ℤ seconds config.window_seconds) entries zero_quantity zero_quantity
  ]

  module _ ⦃d : Double W⦄ where
    abbrev pub higher : Quantity × Quantity → W
    higher v = fmax (contracts v.0) (contracts v.1)

    abbrev pub lower : Quantity × Quantity → W
    lower v = fmin (contracts v.0) (contracts v.1)

    unfoldable pub imbalance_ratio : Fills → String → ℤ → W
    imbalance_ratio fills ticker now =
        let v = windowed_volume fills ticker now in
        if d.eq (higher v) (d.of_int (pos 0))
        then d.of_int (pos 1)
        else d.div (higher v) (fmax (lower v) (d.of_int (pos 1)))

    unfoldable pub is_imbalanced : Fills → String → ℤ → Bool
    is_imbalanced fills ticker now =
        let v = windowed_volume fills ticker now in
        if Quantity.lt (Quantity.add v.0 v.1) (from_contracts config.min_flow_volume)
        then false
        else d.lt config.imbalance_ratio_threshold
            (d.div (higher v) (fmax (lower v) (d.of_int (pos 1))))

    unfoldable pub dominant_taker_side : Fills → String → ℤ → Option Side
    dominant_taker_side fills ticker now =
        let v = windowed_volume fills ticker now in
        if is_imbalanced fills ticker now
        then some (if Quantity.lt v.1 v.0 then buys_no else buys_yes)
        else none

unfoldable pub reset : String → Fills → Fills
reset ticker fills = erase ticker fills
