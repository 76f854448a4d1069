-- ===== src/Scanner/Chosen.antt =====
-- The markets that `scan` of source/exchange/ticker_scanner.cpp returns, through all its probes.
use kalshi_market_maker.Prelude.{
  ℕ, zero, suc, ℤ, pos, negsuc, ◌≤ℤ◌, Bool, true, false, not, ◌&&◌, List, [], ◌∷◌, length,
  if◌then◌else◌, ◌≡◌, arith, All, Outcome, done, Action, pure, ◌>>=◌,
}
use mathlib.Core.Path.{subst}
use kalshi_market_maker.Float.{Double}
use kalshi_market_maker.Scanner.{ScannerConfig, MarketData, Market, MarketScore, IncentiveProgram}
use kalshi_market_maker.Scanner.Dates.{Date}
use kalshi_market_maker.Scanner.Ranking.{utc_date_key, candidates_of, ranked}
use kalshi_market_maker.Scanner.Admission.{
  is_admitted, admit_up_to, admit_finalists, room_for, check_trades, check_book, check_reversion,
}
use kalshi_market_maker.Scanner.Scan.{fetch_markets, cut_to, scan}
use kalshi_market_maker.Scanner.Sound.{
  bind-done, IsChosenFrom, ranked-IsChosen, first_n-All, length-first_n,
}

done_inj : {A : Type 0} {x y : A} → ◌≡◌ {A = Outcome A} (done x) (done y) → x ≡ y
done_inj e = cc e

module _ {W R : Type 0} ⦃d : Double W⦄ (rest : MarketData W R) (config : ScannerConfig W) (now : ℤ)
    (P : MarketScore W → Type 0) where
  admit_up_to-All :
      (room : ℕ) (cs : List (MarketScore W)) (r : R) (xs : List (MarketScore W))
      → (admit_up_to rest config now room cs r).0 ≡ done xs
      → All P cs
      → All P xs
  unfolding admit_up_to
  admit_up_to-All room [] r [] e a = tt
  admit_up_to-All room [] r (x ∷ xs) e a = cc e
  admit_up_to-All zero (c ∷ cs) r [] e a = tt
  admit_up_to-All zero (c ∷ cs) r (x ∷ xs) e a = cc e
  admit_up_to-All (suc room) (c ∷ cs) r xs e (p, a) =
      let room_after : Bool → ℕ = λ admitted. if admitted then room else suc room in
      let join : Bool → List (MarketScore W) → Action R (List (MarketScore W)) =
        λ admitted others. pure (if admitted then c ∷ others else others) in
      let (admitted, _, e1) =
        bind-done (is_admitted rest config now c.ticker)
          (λ admitted. admit_up_to rest config now (room_after admitted) cs >>= join admitted) r xs
          e in
      let (others, e2, e3) =
        bind-done (admit_up_to rest config now (room_after admitted) cs) (join admitted) _ xs e1 in
      subst (All P) (done_inj e3)
        (joined admitted others (admit_up_to-All (room_after admitted) cs _ others e2 a))
    where
      joined :
          (admitted : Bool) (others : List (MarketScore W))
          → All P others
          → All P (if admitted then c ∷ others else others)
      joined true others o = (p, o)
      joined false others o = o

  admit_finalists-All :
      (top_n : ℤ) (cs : List (MarketScore W)) (r : R) (xs : List (MarketScore W))
      → (admit_finalists rest config now top_n cs r).0 ≡ done xs
      → All P cs
      → All P xs
  unfolding admit_finalists
  admit_finalists-All top_n cs r xs e a =
      unchecked
        (not (check_trades rest config now)
          && (not (check_book rest config now) && not (check_reversion rest config now)))
        e
    where
      unchecked :
          (b : Bool)
          → (if b
              then (done cs, r)
              else admit_up_to rest config now (room_for rest config now top_n) cs r).0
            ≡ done xs
          → All P xs
      unchecked true e = subst (All P) (done_inj e) a
      unchecked false e = admit_up_to-All (room_for rest config now top_n) cs r xs e a

  cut_to-All :
      (top_n : ℤ) (cs : List (MarketScore W)) (r : R) (xs : List (MarketScore W))
      → (cut_to top_n cs r).0 ≡ done xs
      → All P cs
      → (pos (length xs) ≤ℤ top_n) × All P xs
  unfolding cut_to
  cut_to-All (pos n) cs r xs e a =
      subst (λ ys. (pos (length ys) ≤ℤ pos n) × All P ys) (done_inj e)
        (omega (arith, length-first_n n cs), first_n-All config now now P n cs a)
  cut_to-All (negsuc n) cs r xs e a = cc e

module _ {W R : Type 0} ⦃d : Double W⦄ (rest : MarketData W R) (config : ScannerConfig W)
    (utc_date : ℤ → Date) where
  -- Where scan returns, it returns at most top_n entries, each with the ticker, mid-point,
  -- spread and volume of a fetched market that is active, quoted on both sides, not over by
  -- its date, and within the limits on price, spread, volume and days to close.
  pub scan-IsChosen :
      (top_n now : ℤ) (r : R) (xs : List (MarketScore W))
      → (scan rest config utc_date top_n now r).0 ≡ done xs
      → (markets : List (Market W)) × ((fetch_markets rest config.event_series r).0 ≡ done markets)
        × (pos (length xs) ≤ℤ top_n)
        × All (IsChosenFrom config (utc_date_key utc_date now) now markets) xs
  unfolding scan
  scan-IsChosen top_n now r xs e =
      let today_key = utc_date_key utc_date now in
      let chosen : List (Market W) → List IncentiveProgram → Action R (List (MarketScore W)) =
        λ markets programs.
          admit_finalists rest config now top_n
            (ranked config programs (candidates_of config today_key now markets))
          >>= cut_to top_n in
      let (markets, e0, e1) =
        bind-done (fetch_markets rest config.event_series)
          (λ markets. rest.get_incentive_programs >>= chosen markets) r xs e in
      let (programs, _, e2) = bind-done rest.get_incentive_programs (chosen markets) _ xs e1 in
      let ranking = ranked config programs (candidates_of config today_key now markets) in
      let (finalists, e3, e4) =
        bind-done (admit_finalists rest config now top_n ranking) (cut_to top_n) _ xs e2 in
      let P = IsChosenFrom config today_key now markets in
      let cut = cut_to-All rest config now P top_n finalists _ xs e4 (
        admit_finalists-All rest config now P top_n ranking _ finalists e3
          (ranked-IsChosen config today_key now programs markets)) in
      (markets, e0, cut.0, cut.1)
