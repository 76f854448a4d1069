-- ===== src/Session/Nets.antt =====
-- `enforce_quote_safety` of source/engine/trading_session.cpp while trading is open.
use kalshi_market_maker.Prelude.{
  ℤ, Bool, true, false, ◌||◌, String, List, [], ◌∷◌, if◌then◌else◌, ◌≡◌, ◌⊎◌, inl, inr, refl, arith,
  done, then_done, for_each, for_each_returns, for_each_keeps, for_each-All, All, contains, str_eq,
  str_eq_iff, str_eq_refl, Bool-cases,
}
use kalshi_market_maker.Risk.{is_halted}
use kalshi_market_maker.Iface.{OrderManagerIface, StrategyIface}
use kalshi_market_maker.Orders.Clearing.{ClearsMarkets}
use kalshi_market_maker.Session.{World, TradingSession, add_member, feed_confirmed, on_world}
use kalshi_market_maker.Session.Kept.{if-Keeps}
use kalshi_market_maker.Session.Safety.{cancel_market, check_feed, enforce_quote_safety}
use kalshi_market_maker.Session.Emptied.{ForgetsOnly, IsCleared, cancel_market-state}

contains-add_member :
    (t k : String) (ts : List String) → contains t (add_member k ts) ≡ (str_eq k t || contains t ts)
unfolding contains
contains-add_member t k ts = elim (Bool-cases (contains k ts)) [
  | inl h ↦ rw h (ground (arith, h, str_eq_iff k t))
  | inr h ↦ rw h refl
]

-- A market is marked dead only without an open order.
abbrev pub IsDeadCleared : {W Q X : Type 0} → OrderManagerIface W X → TradingSession W Q X → Type 0
IsDeadCleared om s = (t : String) → contains t s.feed_dead ≡ true → IsCleared om t s

-- The feed of the market is confirmed, or none of our orders is open there.
abbrev pub IsSafe :
    {W Q X : Type 0} → OrderManagerIface W X → (String → ℤ) → TradingSession W Q X → String → Type 0
IsSafe om clock s t = (feed_confirmed s t (clock t) ≡ true) ⊎ IsCleared om t s

module _ {W Q X : Type 0} (om : OrderManagerIface W X) (strategy : StrategyIface (World W Q X))
    (clearing : ClearsMarkets om) (quiet : ForgetsOnly strategy) (clock : String → ℤ) where
  -- The state after a market is given up.
  abbrev given_up : String → TradingSession W Q X → TradingSession W Q X
  given_up t s = record s {
    world =
        (strategy.forget_ticker t
          (record (s.world) { orders = (om.cancel_all t s.world.orders).1 })).1;
    feed_dead = add_member t s.feed_dead;
  }

  abbrev passes : String → TradingSession W Q X → Bool
  passes t s = feed_confirmed s t (clock t) || contains t s.feed_dead

  check_feed-state :
      (t : String) (s : TradingSession W Q X)
      → check_feed om strategy clock t s
        ≡ (if passes t s then (done tt, s) else (done tt, given_up t s))
  unfolding check_feed
  check_feed-state t s =
      let marked : TradingSession W Q X = record s { feed_dead = add_member t s.feed_dead } in
      let state = cancel_market-state om strategy clearing quiet t marked in
      rw
        (
          then_done (cancel_market om t) (on_world (strategy.forget_ticker t)) marked
              (rw state refl),
          state,
          quiet.forget_returns t (record (s.world) { orders = (om.cancel_all t s.world.orders).1 }),
        )
        refl

  check_feed-returns :
      (t : String) (s : TradingSession W Q X) → (check_feed om strategy clock t s).0 ≡ done tt
  check_feed-returns t s = elim (Bool-cases (passes t s)) [
    | inl h ↦ rw (check_feed-state t s, h) refl
    | inr h ↦ rw (check_feed-state t s, h) refl
  ]

  given_up-IsDeadCleared :
      (t : String) (s : TradingSession W Q X) → IsDeadCleared om s → IsDeadCleared om (given_up t s)
  given_up-IsDeadCleared t s k u h =
      let x = s.world.orders in
      rw (quiet.forgetting t (record (s.world) { orders = (om.cancel_all t x).1 }))
        (elim (Bool-cases (str_eq t u)) [
          | inl e ↦ rw (← (str_eq_iff t u).0 e) (clearing.clears t x)
          | inr e ↦
              clearing.adds_none t u x
                (k u (ground (arith, h, e, contains-add_member u t s.feed_dead)))
        ])

  check_feed-IsDeadCleared :
      (t : String) (s : TradingSession W Q X)
      → IsDeadCleared om s
      → IsDeadCleared om (check_feed om strategy clock t s).1
  check_feed-IsDeadCleared t s k = rw (check_feed-state t s) (
      if-Keeps (IsDeadCleared om) (passes t s) (done tt, s) (done tt, given_up t s) (λ _. k)
        (λ _. given_up-IsDeadCleared t s k))

  abbrev IsJudged : String → TradingSession W Q X → Type 0
  IsJudged t s = (feed_confirmed s t (clock t) ≡ true) ⊎ (contains t s.feed_dead ≡ true)

  judges : (t : String) (s : TradingSession W Q X) → IsJudged t (check_feed om strategy clock t s).1
  judges t s = rw (check_feed-state t s) (
      if-Keeps (IsJudged t) (passes t s) (done tt, s) (done tt, given_up t s)
        (λ h. elim (Bool-cases (feed_confirmed s t (clock t))) [
          | inl c ↦ inl c
          | inr c ↦ inr (ground (arith, h, c))
        ])
        (λ _. inr (ground (arith, contains-add_member t t s.feed_dead, str_eq_refl t))))

  given_up-IsJudged :
      (t u : String) (s : TradingSession W Q X) → IsJudged u s → IsJudged u (given_up t s)
  unfolding feed_confirmed
  given_up-IsJudged t u s (inl c) = inl c
  given_up-IsJudged t u s (inr d) = inr (ground (arith, d, contains-add_member u t s.feed_dead))

  stays-IsJudged :
      (t u : String) (s : TradingSession W Q X)
      → IsJudged u s
      → IsJudged u (check_feed om strategy clock t s).1
  stays-IsJudged t u s j = rw (check_feed-state t s) (
      if-Keeps (IsJudged u) (passes t s) (done tt, s) (done tt, given_up t s) (λ _. j)
        (λ _. given_up-IsJudged t u s j))

  All-IsSafe :
      (ts : List String) (s : TradingSession W Q X)
      → IsDeadCleared om s
      → All (λ t. IsJudged t s) ts
      → All (IsSafe om clock s) ts
  All-IsSafe [] s k a = tt
  All-IsSafe (t ∷ ts) s k (inl c, a) = (inl c, All-IsSafe ts s k a)
  All-IsSafe (t ∷ ts) s k (inr d, a) = (inr (k t d), All-IsSafe ts s k a)

  -- While trading is open and no market marked dead has an open order, enforce_quote_safety
  -- returns, keeps that, and leaves each tracked market with a confirmed feed or without an
  -- open order, under the same laws of cancel_all and of forgetting.
  pub enforce_quote_safety_nets :
      (s : TradingSession W Q X)
      → is_halted s.world.risk ≡ false
      → IsDeadCleared om s
      → let r = enforce_quote_safety om strategy clock s in
        (r.0 ≡ done tt) × (IsDeadCleared om r.1 × All (IsSafe om clock r.1) s.tickers)
  unfolding enforce_quote_safety
  enforce_quote_safety_nets s h k =
      let body = check_feed om strategy clock in
      let kept =
        for_each_keeps body check_feed-returns (IsDeadCleared om) check_feed-IsDeadCleared s.tickers
          s k in
      rw h (
        for_each_returns body check_feed-returns s.tickers s,
        (
          kept,
          All-IsSafe s.tickers (for_each s.tickers body s).1 kept
              (for_each-All body check_feed-returns IsJudged judges stays-IsJudged s.tickers s),
        ),
      )
