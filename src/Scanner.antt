-- ===== src/Scanner.antt =====
-- source/exchange/ticker_scanner.cpp: `TickerScanner`, which chooses the markets to trade. Its
-- configuration (source/exchange/scanner_config.hpp), its data, and what it asks the exchange.
pub mod Dates
pub mod Past
pub mod Ranking
pub mod Tapes
pub mod Admission
pub mod Scan
pub mod Sound
pub mod Chosen
use kalshi_market_maker.Prelude.{ℤ, pos, String, List, Option, Action}
use kalshi_market_maker.Quantity.{Quantity}
use kalshi_market_maker.Types.{Orderbook, PublicTrade}

pub record ScannerConfig (W : Type 0) : Type 0 where
  pub min_price_cents : ℤ
  pub max_price_cents : ℤ
  pub min_spread_cents : ℤ
  pub max_spread_cents : ℤ
  pub min_volume_24h : W
  pub min_days_to_close : W
  pub max_days_to_close : W
  pub incentive_weight : W
  pub trade_top_n : ℤ
  pub max_stale_trade_minutes : ℤ
  pub rotation_minutes : ℤ
  pub min_trades_per_hour : ℤ
  pub min_trade_price_range_cents : ℤ
  pub tape_range_lookback_minutes : ℤ
  pub min_minority_flow_ratio : W
  pub min_reversion_kappa : W
  pub reversion_window_minutes : ℤ
  pub event_series : List String

-- `kDefaultTapeProbeTrades`
abbrev pub default_tape_probe_trades : ℤ
default_tape_probe_trades = pos 8

pub record Market (W : Type 0) : Type 0 where
  pub ticker : String
  pub title : String
  pub category : String
  pub status : String
  pub fee_rate_bps : ℤ
  pub yes_bid_cents : ℤ
  pub yes_ask_cents : ℤ
  pub volume_24h : W
  pub close_time : ℤ

pub record IncentiveProgram : Type 0 where
  pub market_ticker : String
  pub period_reward_centicents : ℤ
  pub target_size : Quantity
  pub discount_factor_bps : ℤ

pub record Candle : Type 0 where
  pub close_cents : Option ℤ

pub record MarketScore (W : Type 0) : Type 0 where
  pub ticker : String
  pub title : String
  pub category : String
  pub mid_price_cents : ℤ
  pub spread_cents : ℤ
  pub volume_24h : W
  pub days_to_close : W
  pub incentive_reward_dollars : W
  pub score : W

-- The calls of `RestClient` that the scanner makes; `R` is the state behind them.
pub record MarketData (W R : Type 0) : Type 0 where
  pub get_markets : String → Action R (List (Market W))
  pub get_incentive_programs : Action R (List IncentiveProgram)
  pub get_recent_trades : String → ℤ → Action R (Option (List PublicTrade))
  pub get_candlesticks : String → ℤ → ℤ → Action R (Option (List Candle))
  pub get_orderbook : String → Action R Orderbook
