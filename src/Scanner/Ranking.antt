-- ===== src/Scanner/Ranking.antt =====
-- Filters and scores of source/exchange/ticker_scanner.cpp: which markets are candidates, and how
-- they are ranked. The calendar of the C++ library is a parameter.
use kalshi_market_maker.Prelude.{
  ℤ, pos, ◌+ℤ◌, ◌-ℤ◌, ltb_ℤ, eqb_ℤ, not, ◌&&◌, ◌||◌, List, [], ◌∷◌, Option, none, some,
  if◌then◌else◌, Dict, lookup, insert, str_eq, map,
}
use kalshi_market_maker.Float.{Double, fmax}
use kalshi_market_maker.Quoter.{half}
use kalshi_market_maker.Scanner.{ScannerConfig, Market, MarketScore, IncentiveProgram}
use kalshi_market_maker.Scanner.Dates.{Date, date_key, is_past_event}

-- The mid-point and the half-width of the spreads that score.
pub record SpreadCurve (W : Type 0) : Type 0 where
  pub mid_cents : W
  pub half_range_cents : W

-- `utc_date_key`, where `utc_date` is the calendar date of a time.
abbrev pub utc_date_key : (ℤ → Date) → ℤ → ℤ
utc_date_key utc_date now = pos (date_key (utc_date now))

module _ {W : Type 0} ⦃d : Double W⦄ where
  -- `duration<double>` of nanoseconds, over the seconds of a day
  abbrev pub days_between : ℤ → ℤ → W
  days_between now close =
      d.div (d.div (d.of_int (close -ℤ now)) (d.of_int (pos 1_000_000_000))) (d.of_int (pos 86_400))

  abbrev pub score_entry : Market W → ℤ → MarketScore W
  score_entry market now = record {
    ticker = market.ticker;
    title = market.title;
    category = market.category;
    mid_price_cents = half (market.yes_bid_cents +ℤ market.yes_ask_cents);
    spread_cents = market.yes_ask_cents -ℤ market.yes_bid_cents;
    volume_24h = market.volume_24h;
    days_to_close = days_between now market.close_time;
    incentive_reward_dollars = d.of_int (pos 0);
    score = d.of_int (pos 0);
  }

  -- The body of the first loop of `scan`.
  unfoldable pub candidate_of : ScannerConfig W → ℤ → ℤ → Market W → Option (MarketScore W)
  unfolding is_past_event half
  candidate_of config today_key now market =
      let entry = score_entry market now in
      if not (str_eq market.status "active")
      then none
      else if eqb_ℤ market.yes_bid_cents (pos 0) || eqb_ℤ market.yes_ask_cents (pos 0)
      then none
      else if is_past_event market.ticker today_key
      then none
      else if ltb_ℤ entry.mid_price_cents config.min_price_cents
          || ltb_ℤ config.max_price_cents entry.mid_price_cents
      then none
      else if ltb_ℤ entry.spread_cents config.min_spread_cents
          || ltb_ℤ config.max_spread_cents entry.spread_cents
      then none
      else if d.lt market.volume_24h config.min_volume_24h
      then none
      else if d.lt entry.days_to_close config.min_days_to_close
          || d.lt config.max_days_to_close entry.days_to_close
      then none
      else some entry

  unfoldable pub candidates_of : ScannerConfig W → ℤ → ℤ → List (Market W) → List (MarketScore W)
  unfolding candidate_of
  candidates_of config today_key now [] = []
  candidates_of config today_key now (m ∷ ms) =
      let rest = candidates_of config today_key now ms in
      elim (candidate_of config today_key now m) [ none ↦ rest | some c ↦ c ∷ rest ]

  unfoldable pub max_volume_of : List (MarketScore W) → W → W
  max_volume_of [] best = best
  max_volume_of (c ∷ cs) best =
      max_volume_of cs (if d.lt best c.volume_24h then c.volume_24h else best)

  unfoldable pub spread_curve : ScannerConfig W → SpreadCurve W
  spread_curve config =
      let two = d.of_int (pos 2) in
      record {
        mid_cents = d.div (d.of_int (config.min_spread_cents +ℤ config.max_spread_cents)) two;
        half_range_cents =
            fmax (d.div (d.of_int (pos 1)) two)
              (d.div (d.of_int (config.max_spread_cents -ℤ config.min_spread_cents)) two);
      }

  abbrev pub fabs : W → W
  fabs x = if d.lt x (d.of_int (pos 0)) then d.negate x else x

  abbrev pub hundredth : ℤ → W
  hundredth n = d.div (d.of_int n) (d.of_int (pos 100))

  unfoldable pub compute_score : MarketScore W → W → SpreadCurve W → W
  compute_score market max_volume curve =
      let one = d.of_int (pos 1) in
      let vol_term =
        if d.lt one max_volume && d.lt one market.volume_24h
        then d.div (d.log market.volume_24h) (d.log max_volume)
        else d.of_int (pos 0) in
      let spread_term = d.sub one (
        d.div (fabs (d.sub (d.of_int market.spread_cents) curve.mid_cents))
          curve.half_range_cents) in
      d.add (d.mul (hundredth (pos 70)) vol_term)
        (d.mul (hundredth (pos 30)) (fmax (d.of_int (pos 0)) spread_term))

  unfoldable pub incentive_term : MarketScore W → W → W
  incentive_term market max_reward =
      let one = d.of_int (pos 1) in
      if d.le market.incentive_reward_dollars (d.of_int (pos 0)) || d.le max_reward one
      then d.of_int (pos 0)
      else d.div (d.log (d.add market.incentive_reward_dollars one)) (d.log (d.add max_reward one))

  -- The loops of `join_incentives`.
  unfoldable pub rewards_of : List IncentiveProgram → Dict W → Dict W
  rewards_of [] rewards = rewards
  rewards_of (p ∷ ps) rewards = rewards_of ps (
      insert p.market_ticker (d.div (d.of_int p.period_reward_centicents) (d.of_int (pos 10_000)))
        rewards)

  unfoldable pub rewarded : Dict W → MarketScore W → MarketScore W
  rewarded rewards c = elim (lookup c.ticker rewards) [
    | none ↦ c
    | some reward ↦ record c { incentive_reward_dollars = reward }
  ]

  unfoldable pub max_reward_of : Dict W → List (MarketScore W) → W → W
  max_reward_of rewards [] best = best
  max_reward_of rewards (c ∷ cs) best =
      max_reward_of rewards cs
        (elim (lookup c.ticker rewards) [ none ↦ best | some reward ↦ fmax best reward ])

  unfoldable pub with_score : ScannerConfig W → W → W → MarketScore W → MarketScore W
  unfolding compute_score incentive_term spread_curve
  with_score config max_volume max_reward c = record c {
    score =
        d.add (compute_score c max_volume (spread_curve config))
          (d.mul config.incentive_weight (incentive_term c max_reward));
  }

  -- `std::sort` by falling score.
  unfoldable pub insert_score : MarketScore W → List (MarketScore W) → List (MarketScore W)
  insert_score c [] = c ∷ []
  insert_score c (k ∷ ks) = if d.lt k.score c.score then c ∷ k ∷ ks else k ∷ insert_score c ks

  unfoldable pub sort_by_score : List (MarketScore W) → List (MarketScore W)
  unfolding insert_score
  sort_by_score [] = []
  sort_by_score (c ∷ cs) = insert_score c (sort_by_score cs)

  -- From the candidates to their ranking.
  unfoldable pub ranked :
      ScannerConfig W → List IncentiveProgram → List (MarketScore W) → List (MarketScore W)
  unfolding rewards_of rewarded max_reward_of max_volume_of with_score sort_by_score
  ranked config programs candidates =
      let rewards = rewards_of programs [] in
      let max_volume = max_volume_of candidates (d.of_int (pos 1)) in
      let max_reward = max_reward_of rewards candidates (d.of_int (pos 0)) in
      sort_by_score
        (map (λ c. with_score config max_volume max_reward (rewarded rewards c)) candidates)
