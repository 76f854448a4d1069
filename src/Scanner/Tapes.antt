-- ===== src/Scanner/Tapes.antt =====
-- What the recent trades and candles of a market show, in source/exchange/ticker_scanner.cpp:
-- `tape_is_two_sided`, `tape_shows_price_discovery`, and the sums of `passes_reversion_admission`.
use kalshi_market_maker.Prelude.{
  ℤ, pos, ◌+ℤ◌, ◌-ℤ◌, ltb_ℤ, min_ℤ, max_ℤ, abs_ℤ, Bool, false, not, List, [], ◌∷◌, none, some,
  if◌then◌else◌,
}
use kalshi_market_maker.Float.{Double, fmin}
use kalshi_market_maker.Quantity.{contracts}
use kalshi_market_maker.Types.{buys_yes, buys_no, PublicTrade, max_price_cents}
use kalshi_market_maker.Scanner.{ScannerConfig, Candle}

-- The variables of the loop of `tape_is_two_sided`.
pub record Flow (W : Type 0) : Type 0 where
  pub yes_volume : W
  pub no_volume : W
  pub yes_prints : ℤ
  pub no_prints : ℤ

-- The variables of the loop of `tape_shows_price_discovery`.
pub record PriceRange : Type 0 where
  pub min_price : ℤ
  pub max_price : ℤ
  pub recent_count : ℤ

-- The trades are newest first: the loops end at the first one that is too old.
unfoldable pub range_of : List PublicTrade → ℤ → PriceRange → PriceRange
range_of [] cutoff r = r
range_of (t ∷ ts) cutoff r =
    let rest = range_of ts cutoff (record {
      min_price = min_ℤ r.min_price t.yes_price_cents;
      max_price = max_ℤ r.max_price t.yes_price_cents;
      recent_count = r.recent_count +ℤ pos 1;
    }) in
    if ltb_ℤ t.timestamp cutoff then r else rest

-- The closes of the candles in which something traded.
unfoldable pub closes_of : List Candle → List ℤ
closes_of [] = []
closes_of (c ∷ cs) =
    let rest = closes_of cs in elim c.close_cents [ none ↦ rest | some close ↦ close ∷ rest ]

module _ {W : Type 0} ⦃d : Double W⦄ where
  abbrev add_print : PublicTrade → Flow W → Flow W
  add_print trade f = elim trade.taker_side [
    | buys_yes ↦ record f {
      yes_volume = d.add f.yes_volume (contracts trade.quantity);
      yes_prints = f.yes_prints +ℤ pos 1;
    }
    | buys_no ↦ record f {
      no_volume = d.add f.no_volume (contracts trade.quantity);
      no_prints = f.no_prints +ℤ pos 1;
    }
  ]

  unfoldable pub flow_of : List PublicTrade → ℤ → Flow W → Flow W
  flow_of [] cutoff f = f
  flow_of (t ∷ ts) cutoff f =
      let rest = flow_of ts cutoff (add_print t f) in if ltb_ℤ t.timestamp cutoff then f else rest

  unfoldable pub tape_is_two_sided : ScannerConfig W → List PublicTrade → ℤ → Bool
  unfolding flow_of
  tape_is_two_sided config trades hour_cutoff =
      let zero_w = d.of_int (pos 0) in
      let f = flow_of trades hour_cutoff (record {
        yes_volume = zero_w;
        no_volume = zero_w;
        yes_prints = pos 0;
        no_prints = pos 0;
      }) in
      let has_volume = d.lt zero_w (d.add f.yes_volume f.no_volume) in
      let minority =
        if has_volume
        then fmin f.yes_volume f.no_volume
        else d.of_int (min_ℤ f.yes_prints f.no_prints) in
      let total =
        if has_volume
        then d.add f.yes_volume f.no_volume
        else d.of_int (f.yes_prints +ℤ f.no_prints) in
      if d.le total zero_w
      then false
      else not (d.lt (d.div minority total) config.min_minority_flow_ratio)

  unfoldable pub tape_shows_price_discovery : ScannerConfig W → List PublicTrade → ℤ → Bool
  unfolding range_of
  tape_shows_price_discovery config trades lookback_cutoff =
      let r = range_of trades lookback_cutoff (record {
        min_price = max_price_cents +ℤ pos 1;
        max_price = pos 0;
        recent_count = pos 0;
      }) in
      if ltb_ℤ r.recent_count (pos 2)
      then false
      else not (ltb_ℤ (r.max_price -ℤ r.min_price) config.min_trade_price_range_cents)

  -- `path_variation`, and the last close.
  unfoldable pub walk : ℤ → List ℤ → W → W × ℤ
  walk previous [] path = (path, previous)
  walk previous (close ∷ closes) path =
      walk close closes (d.add path (d.of_int (abs_ℤ (close -ℤ previous))))

  unfoldable pub reverts : ScannerConfig W → List ℤ → Bool
  unfolding walk
  reverts config [] = false
  reverts config (close ∷ []) = false
  reverts config (first ∷ second ∷ closes) =
      let walked = walk first (second ∷ closes) (d.of_int (pos 0)) in
      let net_move = d.of_int (walked.1 -ℤ first) in
      not (d.lt walked.0 (d.mul config.min_reversion_kappa (d.mul net_move net_move)))
