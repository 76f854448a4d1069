-- ===== src/Scanner/Sound.antt =====
-- What `scan` of source/exchange/ticker_scanner.cpp returns.
use kalshi_market_maker.Prelude.{
  ℕ, zero, suc, ◌≤◌, ◌+ℤ◌, ◌-ℤ◌, ℤ, pos, ltb_ℤ, eqb_ℤ, Bool, true, false, not, ◌||◌, List, [], ◌∷◌,
  map, length, Option, none, some, if◌then◌else◌, Bool-cases, inl, inr, ◌≡◌, ◌⊎◌, refl, arith, All,
  lookup, str_eq, Outcome, done, threw, panicked, Action, ◌>>=◌, Dict,
}
use mathlib.Core.Path.{subst}
use kalshi_market_maker.Float.{Double}
use kalshi_market_maker.Quoter.{half}
use kalshi_market_maker.Scanner.{ScannerConfig, Market, MarketScore, IncentiveProgram}
use kalshi_market_maker.Scanner.Dates.{is_past_event}
use kalshi_market_maker.Scanner.Ranking.{
  days_between, score_entry, candidate_of, candidates_of, rewarded, with_score, insert_score,
  sort_by_score, ranked, rewards_of,
}
use kalshi_market_maker.Scanner.Scan.{first_n}

pub bind-done :
    {S A B : Type 0} (m : Action S A) (k : A → Action S B) (s : S) (b : B)
    → ((m >>= k) s).0 ≡ done b
    → (a : A) × ((m s).0 ≡ done a) × ((k a (m s).1).0 ≡ done b)
bind-done {S} {A} {B} m k s b e = found (m s).0 refl e
  where
    found :
        (r : Outcome A)
        → (m s).0 ≡ r
        → (elim r as (λ _. Outcome B × S) [
          | done a ↦ k a (m s).1
          | threw ↦ (threw, (m s).1)
          | panicked ↦ (panicked, (m s).1)
        ]).0
          ≡ done b
        → (a : A) × ((m s).0 ≡ done a) × ((k a (m s).1).0 ≡ done b)
    found (done a) h e = (a, h, e)
    found threw h e = cc e
    found panicked h e = cc e

guard_passes :
    {A : Type 0} (b : Bool) (x : Option A) (y : A)
    → (if b then none else x) ≡ some y
    → (b ≡ false) × (x ≡ some y)
guard_passes true x y e = cc e
guard_passes false x y e = (refl, e)

neither : (a b : Bool) → (a || b) ≡ false → (a ≡ false) × (b ≡ false)
neither true b e = cc e
neither false b e = (refl, e)

abbrev pub IsListed : {A : Type 0} → A → List A → Type 0
IsListed x [] = ⊥
IsListed x (y ∷ ys) = (x ≡ y) ⊎ IsListed x ys

module _ {W : Type 0} ⦃d : Double W⦄ (config : ScannerConfig W) (today_key now : ℤ) where
  -- The filters that a market has passed.
  pub record IsEligible (m : Market W) : Type 0 where
    pub active : str_eq m.status "active" ≡ true
    pub has_bid : eqb_ℤ m.yes_bid_cents (pos 0) ≡ false
    pub has_ask : eqb_ℤ m.yes_ask_cents (pos 0) ≡ false
    pub ahead : is_past_event m.ticker today_key ≡ false
    pub not_cheap : ltb_ℤ (half (m.yes_bid_cents +ℤ m.yes_ask_cents)) config.min_price_cents ≡ false
    pub not_dear : ltb_ℤ config.max_price_cents (half (m.yes_bid_cents +ℤ m.yes_ask_cents)) ≡ false
    pub not_tight : ltb_ℤ (m.yes_ask_cents -ℤ m.yes_bid_cents) config.min_spread_cents ≡ false
    pub not_wide : ltb_ℤ config.max_spread_cents (m.yes_ask_cents -ℤ m.yes_bid_cents) ≡ false
    pub liquid : d.lt m.volume_24h config.min_volume_24h ≡ false
    pub not_soon : d.lt (days_between now m.close_time) config.min_days_to_close ≡ false
    pub not_late : d.lt config.max_days_to_close (days_between now m.close_time) ≡ false

  -- The entry was made for this market.
  pub record IsScoreOf (m : Market W) (c : MarketScore W) : Type 0 where
    pub same_ticker : c.ticker ≡ m.ticker
    pub mid : c.mid_price_cents ≡ half (m.yes_bid_cents +ℤ m.yes_ask_cents)
    pub spread : c.spread_cents ≡ m.yes_ask_cents -ℤ m.yes_bid_cents
    pub volume : c.volume_24h ≡ m.volume_24h

  abbrev IsScoreOfSome : Market W → Option (MarketScore W) → Type 0
  IsScoreOfSome m none = Unit
  IsScoreOfSome m (some c) = IsScoreOf m c

  abbrev pub IsChosenFrom : List (Market W) → MarketScore W → Type 0
  IsChosenFrom markets c = (m : Market W) × IsListed m markets × IsEligible m × IsScoreOf m c

  candidate_of-IsEligible :
      (m : Market W) (c : MarketScore W)
      → candidate_of config today_key now m ≡ some c
      → IsEligible m × IsScoreOf m c
  unfolding candidate_of
  candidate_of-IsEligible m c e =
      let (active, e1) = guard_passes (not (str_eq m.status "active")) _ c e in
      let (quoted, e2) = guard_passes _ _ c e1 in
      let (ahead, e3) = guard_passes _ _ c e2 in
      let (priced, e4) = guard_passes _ _ c e3 in
      let (spread, e5) = guard_passes _ _ c e4 in
      let (liquid, e6) = guard_passes _ _ c e5 in
      let (timed, e7) = guard_passes _ (some (score_entry m now)) c e6 in
      let (bid, ask) = neither _ _ quoted in
      let (cheap, dear) = neither _ _ priced in
      let (tight, wide) = neither _ _ spread in
      let (soon, late) = neither _ _ timed in
      (
        record {
          active = ground (arith, active);
          has_bid = bid;
          has_ask = ask;
          ahead = ahead;
          not_cheap = cheap;
          not_dear = dear;
          not_tight = tight;
          not_wide = wide;
          liquid = liquid;
          not_soon = soon;
          not_late = late;
        },
        subst (λ (found : Option (MarketScore W)). IsScoreOfSome m found) e7
            (record { same_ticker = refl; mid = refl; spread = refl; volume = refl }),
      )

  candidates_of-IsChosen :
      (ms all : List (Market W))
      → ((m : Market W) → IsListed m ms → IsListed m all)
      → All (IsChosenFrom all) (candidates_of config today_key now ms)
  unfolding candidates_of
  candidates_of-IsChosen [] all h = tt
  candidates_of-IsChosen (m ∷ ms) all h =
      entered (candidate_of config today_key now m) (candidate_of-IsEligible m)
        (candidates_of config today_key now ms) (candidates_of-IsChosen ms all (λ n l. h n (inr l)))
    where
      entered :
          (found : Option (MarketScore W))
          → ((c : MarketScore W) → found ≡ some c → IsEligible m × IsScoreOf m c)
          → (rest : List (MarketScore W)) → All (IsChosenFrom all) rest
          → All
              (IsChosenFrom all)
              (elim found as (λ _. List (MarketScore W)) [ none ↦ rest | some c ↦ c ∷ rest ])
      entered none k rest a = a
      entered (some c) k rest a = ((m, h m (inl refl), (k c refl).0, (k c refl).1), a)

  module _ (P : MarketScore W → Type 0) where
    insert_score-All :
        (c : MarketScore W) (cs : List (MarketScore W)) → P c → All P cs → All P (insert_score c cs)
    unfolding insert_score
    insert_score-All c [] p a = (p, tt)
    insert_score-All c (k ∷ ks) p (q, a) = elim (Bool-cases (d.lt k.score c.score)) [
      | inl h ↦ rw h (p, (q, a))
      | inr h ↦ rw h (q, insert_score-All c ks p a)
    ]

    sort_by_score-All : (cs : List (MarketScore W)) → All P cs → All P (sort_by_score cs)
    unfolding sort_by_score
    sort_by_score-All [] a = tt
    sort_by_score-All (c ∷ cs) (p, a) =
        insert_score-All c (sort_by_score cs) p (sort_by_score-All cs a)

    map-All :
        (f : MarketScore W → MarketScore W) (cs : List (MarketScore W))
        → ((c : MarketScore W) → P c → P (f c))
        → All P cs
        → All P (map f cs)
    map-All f [] h a = tt
    map-All f (c ∷ cs) h (p, a) = (h c p, map-All f cs h a)

    pub first_n-All : (n : ℕ) (cs : List (MarketScore W)) → All P cs → All P (first_n n cs)
    unfolding first_n
    first_n-All zero cs a = tt
    first_n-All (suc n) [] a = tt
    first_n-All (suc n) (c ∷ cs) (p, a) = (p, first_n-All n cs a)

  with_score-IsChosen :
      (markets : List (Market W)) (max_volume max_reward : W) (rewards : Dict W) (c : MarketScore W)
      → IsChosenFrom markets c
      → IsChosenFrom markets (with_score config max_volume max_reward (rewarded rewards c))
  unfolding with_score rewarded
  with_score-IsChosen markets max_volume max_reward rewards c (m, l, e, s) =
      (m, l, e, kept (lookup c.ticker rewards))
    where
      kept :
          (reward : Option W)
          → IsScoreOf m (
              with_score config max_volume max_reward (elim reward as (λ _. MarketScore W) [
                | none ↦ c
                | some reward ↦ record c { incentive_reward_dollars = reward }
              ]))
      kept none = record {
        same_ticker = s.same_ticker;
        mid = s.mid;
        spread = s.spread;
        volume = s.volume;
      }
      kept (some reward) = record {
        same_ticker = s.same_ticker;
        mid = s.mid;
        spread = s.spread;
        volume = s.volume;
      }

  pub ranked-IsChosen :
      (programs : List IncentiveProgram) (markets : List (Market W))
      → All
          (IsChosenFrom markets)
          (ranked config programs (candidates_of config today_key now markets))
  unfolding ranked
  ranked-IsChosen programs markets = sort_by_score-All (IsChosenFrom markets) _ (
      map-All (IsChosenFrom markets) _ (candidates_of config today_key now markets)
        (with_score-IsChosen markets _ _ (rewards_of programs []))
        (candidates_of-IsChosen markets markets (λ m l. l)))

pub length-first_n : {A : Type 0} (n : ℕ) (xs : List A) → length (first_n n xs) ≤ n
unfolding first_n
length-first_n zero xs = ground arith
length-first_n (suc n) [] = ground arith
length-first_n (suc n) (x ∷ xs) = ground (arith, length-first_n n xs)
