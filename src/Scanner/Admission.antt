-- ===== src/Scanner/Admission.antt =====
-- The probes of source/exchange/ticker_scanner.cpp: what a ranked market must show on its tape, its
-- candles and its book before it is admitted. A probe the exchange cannot answer admits.
use kalshi_market_maker.Prelude.{
  ℕ, zero, suc, ◌/◌, ℤ, pos, negsuc, neg, ◌-ℤ◌, ◌*ℤ◌, ltb_ℤ, leb_ℤ, max_ℤ, Bool, true, false, not,
  ◌&&◌, ◌||◌, String, List, [], ◌∷◌, Option, none, some, if◌then◌else◌, done, Action, pure, ◌>>=◌,
  try_catch,
}
use kalshi_market_maker.Float.{Double}
use kalshi_market_maker.Types.{PublicTrade, Orderbook}
use kalshi_market_maker.Book.{apply_snapshot, best_bid, best_ask}
use kalshi_market_maker.Flow.{seconds}
use kalshi_market_maker.Scanner.{ScannerConfig, MarketData, MarketScore, default_tape_probe_trades}
use kalshi_market_maker.Scanner.Tapes.{
  tape_is_two_sided, tape_shows_price_discovery, closes_of, reverts,
}

abbrev pub minutes : ℤ → ℤ
minutes n = seconds (n *ℤ pos 60)

-- `(*trades)[n - 1]`, none where there are fewer than `n`.
unfoldable pub nth_trade : ℤ → List PublicTrade → Option PublicTrade
nth_trade n [] = none
nth_trade n (t ∷ ts) = if leb_ℤ n (pos 1) then some t else nth_trade (n -ℤ pos 1) ts

module _ {W R : Type 0} ⦃d : Double W⦄ (rest : MarketData W R) (config : ScannerConfig W)
    (now : ℤ) where
  abbrev nought : W
  nought = d.of_int (pos 0)

  unfoldable pub probe_limit : ℤ
  probe_limit =
      let range_probe =
        if ltb_ℤ (pos 0) config.min_trade_price_range_cents
        then default_tape_probe_trades
        else pos 1 in
      let flow_probe =
        if d.lt nought config.min_minority_flow_ratio then default_tape_probe_trades else pos 1 in
      max_ℤ (max_ℤ config.min_trades_per_hour range_probe) (max_ℤ flow_probe (pos 1))

  -- The tests on the trades, newest first.
  abbrev pub is_stale : PublicTrade → Bool
  is_stale newest =
      ltb_ℤ (pos 0) config.max_stale_trade_minutes
      && ltb_ℤ newest.timestamp (now -ℤ minutes config.max_stale_trade_minutes)

  abbrev pub is_slow : List PublicTrade → Bool
  is_slow trades =
      ltb_ℤ (pos 0) config.min_trades_per_hour
      && elim (nth_trade config.min_trades_per_hour trades) [
        | none ↦ true
        | some t ↦ ltb_ℤ t.timestamp (now -ℤ minutes (pos 60))
      ]

  unfoldable pub tape_admits : List PublicTrade → Bool
  unfolding nth_trade tape_shows_price_discovery tape_is_two_sided
  tape_admits [] = false
  tape_admits (newest ∷ older) =
      let trades = newest ∷ older in
      if is_stale newest
      then false
      else if is_slow trades
      then false
      else if ltb_ℤ (pos 0) config.min_trade_price_range_cents
          && not (
              tape_shows_price_discovery config trades
                (now -ℤ minutes config.tape_range_lookback_minutes))
      then false
      else not (
          d.lt nought config.min_minority_flow_ratio
          && not (tape_is_two_sided config trades (now -ℤ minutes (pos 60))))

  unfoldable pub passes_flow_admission : String → Action R Bool
  unfolding probe_limit tape_admits
  passes_flow_admission ticker = rest.get_recent_trades ticker probe_limit >>= λ trades.
      pure (elim trades [ none ↦ true | some trades ↦ tape_admits trades ])

  -- `duration_cast<seconds>` of the time since the epoch, towards zero
  unfoldable pub epoch_seconds : ℤ → ℤ
  epoch_seconds (pos n) = pos (n / 1_000_000_000)
  epoch_seconds (negsuc n) = neg (pos (suc n / 1_000_000_000))

  unfoldable pub passes_reversion_admission : String → Action R Bool
  unfolding epoch_seconds closes_of reverts
  passes_reversion_admission ticker =
      let end_ts = epoch_seconds now in
      rest.get_candlesticks ticker (end_ts -ℤ config.reversion_window_minutes *ℤ pos 60) end_ts
      >>= λ candles.
          pure (elim candles [ none ↦ true | some candles ↦ reverts config (closes_of candles) ])

  unfoldable pub book_admits : Orderbook → Bool
  book_admits snapshot =
      let book = apply_snapshot snapshot in
      elim (best_bid book) [
        | none ↦ true
        | some bid ↦ elim (best_ask book) [
          | none ↦ true
          | some ask ↦ not (ltb_ℤ (ask.price_cents -ℤ bid.price_cents) config.min_spread_cents)
        ]
      ]

  unfoldable pub passes_book_admission : String → Action R Bool
  unfolding book_admits
  passes_book_admission ticker =
      try_catch (rest.get_orderbook ticker >>= λ snapshot. pure (book_admits snapshot)) (pure true)

  abbrev pub check_trades : Bool
  check_trades =
      ltb_ℤ (pos 0) config.max_stale_trade_minutes
      || (ltb_ℤ (pos 0) config.min_trades_per_hour
          || (ltb_ℤ (pos 0) config.min_trade_price_range_cents
              || d.lt nought config.min_minority_flow_ratio))

  abbrev pub check_book : Bool
  check_book = ltb_ℤ (pos 0) config.min_spread_cents

  abbrev pub check_reversion : Bool
  check_reversion = d.lt nought config.min_reversion_kappa

  -- A probe that is switched off is not made.
  abbrev pub probe : Bool → (String → Action R Bool) → String → Action R Bool
  probe switched call ticker r = if switched then call ticker r else (done true, r)

  -- The body of the loop of `admit_finalists`.
  unfoldable pub is_admitted : String → Action R Bool
  unfolding passes_flow_admission passes_book_admission passes_reversion_admission
  is_admitted ticker = do
    flow ← probe check_trades passes_flow_admission ticker
    book ← probe (flow && check_book) passes_book_admission ticker
    reversion ← probe (flow && (book && check_reversion)) passes_reversion_admission ticker
    pure (flow && (book && reversion))

  -- The loop, with room for `room` more markets.
  unfoldable pub admit_up_to : ℕ → List (MarketScore W) → Action R (List (MarketScore W))
  unfolding is_admitted
  admit_up_to room [] = pure []
  admit_up_to zero (c ∷ cs) = pure []
  admit_up_to (suc room) (c ∷ cs) = do
    admitted ← is_admitted c.ticker
    others ← admit_up_to (if admitted then room else suc room) cs
    pure (if admitted then c ∷ others else others)

  -- A negative limit leaves no room.
  abbrev pub room_for : ℤ → ℕ
  room_for (pos n) = n
  room_for (negsuc n) = 0

  unfoldable pub admit_finalists : ℤ → List (MarketScore W) → Action R (List (MarketScore W))
  unfolding admit_up_to
  admit_finalists top_n candidates r =
      if not check_trades && (not check_book && not check_reversion)
      then (done candidates, r)
      else admit_up_to (room_for top_n) candidates r
