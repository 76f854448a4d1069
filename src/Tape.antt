-- ===== src/Tape.antt =====
-- source/engine/trade_tape.cpp: `TradeTape`, the recent public trades of each market, our own fills
-- among them known by their trade ids.
pub mod Window
use kalshi_market_maker.Prelude.{
  ℤ, pos, ◌-ℤ◌, ◌+ℤ◌, ◌*ℤ◌, ltb_ℤ, leb_ℤ, Bool, true, false, not, ◌&&◌, String, List, [], ◌∷◌, ◌++◌,
  Option, none, some, if◌then◌else◌, Dict, lookup, insert, get_or, contains, str_eq,
}
use kalshi_market_maker.Float.{Double, fmin}
use kalshi_market_maker.Quantity.{Quantity, contracts}
use kalshi_market_maker.Types.{Side, buys_yes, buys_no, PublicTrade}
use kalshi_market_maker.Flow.{seconds, ticks_per_second}

pub record TradeTapeConfig (W : Type 0) : Type 0 where
  pub window_seconds : ℤ
  pub own_fill_weight : W

-- `prints_by_ticker_` and `own_trade_ids_`
pub record TradeTape : Type 0 where
  pub prints_by_ticker : Dict (List PublicTrade)
  pub own_trade_ids : List String

-- The loop that drops prints from the front.
unfoldable pub drop_old : ℤ → List PublicTrade → List PublicTrade
drop_old cutoff [] = []
drop_old cutoff (p ∷ ps) = if ltb_ℤ p.timestamp cutoff then drop_old cutoff ps else p ∷ ps

unfoldable pub record_own_fill : String → TradeTape → TradeTape
record_own_fill trade_id tape = if str_eq trade_id "" then tape else record tape {
  own_trade_ids =
      if contains trade_id tape.own_trade_ids
      then tape.own_trade_ids
      else trade_id ∷ tape.own_trade_ids;
}

module _ {W : Type 0} (config : TradeTapeConfig W) where
  unfoldable pub record_trade : PublicTrade → TradeTape → TradeTape
  unfolding drop_old
  record_trade trade tape =
      let prints = get_or trade.market_ticker [] tape.prints_by_ticker ++ trade ∷ [] in
      record tape {
        prints_by_ticker =
            insert trade.market_ticker
              (drop_old (trade.timestamp -ℤ seconds config.window_seconds) prints)
              tape.prints_by_ticker;
      }

  unfoldable pub is_in_window : PublicTrade → ℤ → Bool
  is_in_window print now =
      leb_ℤ (now -ℤ seconds config.window_seconds) print.timestamp && leb_ℤ print.timestamp now

  unfoldable pub is_countable : TradeTape → PublicTrade → ℤ → Bool
  unfolding is_in_window
  is_countable tape print now =
      is_in_window print now && not (contains print.trade_id tape.own_trade_ids)

  -- The loop of `print_count`.
  unfoldable pub count_prints : TradeTape → ℤ → List PublicTrade → ℤ → ℤ
  unfolding is_countable
  count_prints tape now [] count = count
  count_prints tape now (p ∷ ps) count =
      count_prints tape now ps (if is_countable tape p now then count +ℤ pos 1 else count)

  unfoldable pub print_count : TradeTape → String → ℤ → ℤ
  unfolding count_prints
  print_count tape ticker now = elim (lookup ticker tape.prints_by_ticker) [
    | none ↦ pos 0
    | some prints ↦ count_prints tape now prints (pos 0)
  ]

  module _ ⦃d : Double W⦄ where
    abbrev pub nought : W
    nought = d.of_int (pos 0)

    -- What one print weighs in the average. `std::chrono::duration<double>` counts seconds.
    unfoldable pub print_weight : TradeTape → ℤ → ℤ → PublicTrade → W
    print_weight tape half_life now print =
        let age_seconds = d.div (d.of_int (now -ℤ print.timestamp)) (d.of_int ticks_per_second) in
        let half_lives_elapsed = d.div age_seconds (d.of_int half_life) in
        let weight = d.mul (contracts print.quantity) (d.exp2 (d.negate half_lives_elapsed)) in
        if contains print.trade_id tape.own_trade_ids
        then d.mul weight config.own_fill_weight
        else weight

    -- The loop of `vwap_cents`, {weighted_price_sum, weight_sum}.
    unfoldable pub weigh_prints : TradeTape → ℤ → ℤ → List PublicTrade → W → W → W × W
    unfolding is_in_window print_weight
    weigh_prints tape half_life now [] price_sum weight_sum = (price_sum, weight_sum)
    weigh_prints tape half_life now (p ∷ ps) price_sum weight_sum =
        if is_in_window p now
        then (let w = print_weight tape half_life now p in
            weigh_prints tape half_life now ps
              (d.add price_sum (d.mul w (d.of_int p.yes_price_cents))) (d.add weight_sum w))
        else weigh_prints tape half_life now ps price_sum weight_sum

    unfoldable pub vwap_of : List PublicTrade → TradeTape → ℤ → ℤ → Option W
    unfolding weigh_prints
    vwap_of prints tape half_life now =
        let s = weigh_prints tape half_life now prints nought nought in
        if d.le s.1 nought then none else some (d.div s.0 s.1)

    unfoldable pub vwap_cents : TradeTape → String → ℤ → ℤ → Option W
    unfolding vwap_of
    vwap_cents tape ticker half_life now = elim (lookup ticker tape.prints_by_ticker) [
      | none ↦ none
      | some prints ↦ vwap_of prints tape half_life now
    ]

    -- The loop of `minority_side_ratio`, {yes_volume, no_volume}.
    unfoldable pub sum_sides : TradeTape → ℤ → List PublicTrade → W → W → W × W
    unfolding is_countable
    sum_sides tape now [] yes_volume no_volume = (yes_volume, no_volume)
    sum_sides tape now (p ∷ ps) yes_volume no_volume =
        if is_countable tape p now
        then elim p.taker_side [
          | buys_yes ↦ sum_sides tape now ps (d.add yes_volume (contracts p.quantity)) no_volume
          | buys_no ↦ sum_sides tape now ps yes_volume (d.add no_volume (contracts p.quantity))
        ]
        else sum_sides tape now ps yes_volume no_volume

    unfoldable pub ratio_of : W × W → Option W
    ratio_of v =
        let total_volume = d.add v.0 v.1 in
        if d.le total_volume nought then none else some (d.div (fmin v.0 v.1) total_volume)

    unfoldable pub minority_side_ratio : TradeTape → String → ℤ → Option W
    unfolding sum_sides ratio_of
    minority_side_ratio tape ticker now = elim (lookup ticker tape.prints_by_ticker) [
      | none ↦ none
      | some prints ↦ ratio_of (sum_sides tape now prints nought nought)
    ]
