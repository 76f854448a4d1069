-- ===== src/Scanner/Scan.antt =====
-- `scan` of source/exchange/ticker_scanner.cpp, from the markets of the exchange to the few to trade.
use kalshi_market_maker.Prelude.{
  ℕ, zero, suc, ℤ, pos, negsuc, String, List, [], ◌∷◌, ◌++◌, done, threw, Action, pure, ◌>>=◌,
}
use kalshi_market_maker.Float.{Double}
use kalshi_market_maker.Scanner.{ScannerConfig, MarketData, Market, MarketScore}
use kalshi_market_maker.Scanner.Dates.{Date}
use kalshi_market_maker.Scanner.Ranking.{utc_date_key, candidates_of, ranked}
use kalshi_market_maker.Scanner.Admission.{admit_finalists}

-- `resize` of a list that is longer than `n`.
unfoldable pub first_n : {A : Type 0} → ℕ → List A → List A
first_n zero xs = []
first_n (suc n) [] = []
first_n (suc n) (x ∷ xs) = x ∷ first_n n xs

module _ {W R : Type 0} (rest : MarketData W R) where
  -- The loop of `fetch_markets`, after `all`.
  unfoldable pub fetch_series : List String → List (Market W) → Action R (List (Market W))
  fetch_series [] all = pure all
  fetch_series (event ∷ series) all =
      rest.get_markets event >>= λ batch. fetch_series series (all ++ batch)

  unfoldable pub fetch_markets : List String → Action R (List (Market W))
  unfolding fetch_series
  fetch_markets [] = rest.get_markets ""
  fetch_markets (event ∷ series) = fetch_series (event ∷ series) []

-- The end of `scan`. A negative size is a `std::length_error`.
unfoldable pub cut_to : {A R : Type 0} → ℤ → List A → Action R (List A)
unfolding first_n
cut_to (pos n) xs r = (done (first_n n xs), r)
cut_to (negsuc n) xs r = (threw, r)

module _ {W R : Type 0} ⦃d : Double W⦄ (rest : MarketData W R) (config : ScannerConfig W)
    (utc_date : ℤ → Date) where
  unfoldable pub scan : ℤ → ℤ → Action R (List (MarketScore W))
  unfolding fetch_markets candidates_of ranked admit_finalists cut_to
  scan top_n now = do
    markets ← fetch_markets rest config.event_series
    programs ← rest.get_incentive_programs
    let candidates = candidates_of config (utc_date_key utc_date now) now markets
    finalists ← admit_finalists rest config now top_n (ranked config programs candidates)
    cut_to top_n finalists
