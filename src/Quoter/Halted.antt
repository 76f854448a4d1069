-- ===== src/Quoter/Halted.antt =====
-- `refresh_bid` and `refresh_ask` of source/strategy/quoter.cpp while trading is halted.
use kalshi_market_maker.Prelude.{
  ℤ, leb_ℤ, ◌-ℤ◌, Bool, true, false, String, Option, ◌≡◌, refl, arith, Action, Outcome, done, threw,
  panicked,
}
use kalshi_market_maker.Quantity.{Quantity}
use kalshi_market_maker.Types.{Side, buys_yes, buys_no, Order, complement_price}
use kalshi_market_maker.Iface.{OrderManagerIface}
use kalshi_market_maker.Risk.{RiskManager, check_order, is_halted}
use kalshi_market_maker.Quoter.{QuoterConfig}
use kalshi_market_maker.Quoter.Refresh.{
  Desk, release_order, bid_crosses, after_bid_release, replace_bid, amend_bid, reprice_bid,
  refresh_bid, ask_crosses, after_ask_release, replace_ask, amend_ask, reprice_ask, refresh_ask,
}

-- The order manager with any other `place` and `amend`.
abbrev pub with_entry_calls :
    {W S : Type 0}
    → (String → Side → ℤ → ℤ → Action S Order)
    → (String → String → Side → ℤ → Quantity → Action S (Option String))
    → OrderManagerIface W S
    → OrderManagerIface W S
with_entry_calls place amend om = record om { place = place; amend = amend }

pub same_after_call :
    {A X : Type 0} (r : Outcome A) (x : X) (f g : A → Outcome (Unit {0}) × X)
    → ((a : A) → f a ≡ g a)
    → (elim r as (λ _. Outcome (Unit {0}) × X) [
      | done a ↦ f a
      | threw ↦ (threw, x)
      | panicked ↦ (panicked, x)
    ])
      ≡ (elim r as (λ _. Outcome (Unit {0}) × X) [
        | done a ↦ g a
        | threw ↦ (threw, x)
        | panicked ↦ (panicked, x)
      ])
same_after_call (done a) x f g h = h a
same_after_call threw x f g h = refl
same_after_call panicked x f g h = refl

module _ {W S : Type 0} (config : QuoterConfig W) (om : OrderManagerIface W S)
    (risk : RiskManager W) (place : String → Side → ℤ → ℤ → Action S Order)
    (amend : String → String → Side → ℤ → Quantity → Action S (Option String)) (ticker : String)
    (desired now : ℤ) where
  abbrev other : OrderManagerIface W S
  other = with_entry_calls place amend om

  closed :
      (side : Side) (price size : ℤ)
      → is_halted risk ≡ true
      → check_order risk ticker side price size ≡ false
  unfolding check_order
  closed side price size h = rw h

  after_bid_release-halted :
      (wc released : Bool) (k : Desk S)
      → is_halted risk ≡ true
      → after_bid_release config other risk ticker desired now wc released k
        ≡ after_bid_release config om risk ticker desired now wc released k
  unfolding after_bid_release
  after_bid_release-halted wc released k h = rw (closed buys_yes desired config.quote_size h)

  replace_bid-halted :
      (wc : Bool) (k : Desk S)
      → is_halted risk ≡ true
      → replace_bid config other risk ticker desired now wc k
        ≡ replace_bid config om risk ticker desired now wc k
  unfolding replace_bid release_order
  replace_bid-halted wc k h =
      let answer = release_order config om risk k.own.bid_order_id k.orders in
      let after : Desk S = record k { orders = answer.1 } in
      same_after_call answer.0 after
        (λ released. after_bid_release config other risk ticker desired now wc released after)
        (λ released. after_bid_release config om risk ticker desired now wc released after)
        (λ released. after_bid_release-halted wc released after h)

  amend_bid-halted :
      (wc : Bool) (k : Desk S)
      → is_halted risk ≡ true
      → amend_bid config other risk ticker desired now wc k
        ≡ amend_bid config om risk ticker desired now wc k
  unfolding amend_bid
  amend_bid-halted wc k h =
      ground (arith, closed buys_yes desired config.quote_size h, replace_bid-halted wc k h)

  reprice_bid-halted :
      (adverse : Bool) (k : Desk S)
      → is_halted risk ≡ true
      → reprice_bid config other risk ticker desired now adverse k
        ≡ reprice_bid config om risk ticker desired now adverse k
  unfolding reprice_bid bid_crosses
  reprice_bid-halted adverse k h = rw (
      amend_bid-halted (bid_crosses config om risk ticker desired now k.own)
        (record k { own = record (k.own) { bid_fade_pending = false } }) h)

  pub refresh_bid-halted :
      (k : Desk S)
      → is_halted risk ≡ true
      → refresh_bid config other risk ticker desired now k
        ≡ refresh_bid config om risk ticker desired now k
  unfolding refresh_bid bid_crosses
  refresh_bid-halted k h = rw (
    closed buys_yes desired config.quote_size h,
    reprice_bid-halted (leb_ℤ config.theo_jump_cents (k.own.quoted_bid_cents -ℤ desired)) k h,
  )

  after_ask_release-halted :
      (wc released : Bool) (k : Desk S)
      → is_halted risk ≡ true
      → after_ask_release config other risk ticker desired now wc released k
        ≡ after_ask_release config om risk ticker desired now wc released k
  unfolding after_ask_release
  after_ask_release-halted wc released k h =
      rw (closed buys_no (complement_price desired) config.quote_size h)

  replace_ask-halted :
      (wc : Bool) (k : Desk S)
      → is_halted risk ≡ true
      → replace_ask config other risk ticker desired now wc k
        ≡ replace_ask config om risk ticker desired now wc k
  unfolding replace_ask release_order
  replace_ask-halted wc k h =
      let answer = release_order config om risk k.own.ask_order_id k.orders in
      let after : Desk S = record k { orders = answer.1 } in
      same_after_call answer.0 after
        (λ released. after_ask_release config other risk ticker desired now wc released after)
        (λ released. after_ask_release config om risk ticker desired now wc released after)
        (λ released. after_ask_release-halted wc released after h)

  amend_ask-halted :
      (wc : Bool) (k : Desk S)
      → is_halted risk ≡ true
      → amend_ask config other risk ticker desired now wc k
        ≡ amend_ask config om risk ticker desired now wc k
  unfolding amend_ask
  amend_ask-halted wc k h = ground (
    arith,
    closed buys_no (complement_price desired) config.quote_size h,
    replace_ask-halted wc k h,
  )

  reprice_ask-halted :
      (adverse : Bool) (k : Desk S)
      → is_halted risk ≡ true
      → reprice_ask config other risk ticker desired now adverse k
        ≡ reprice_ask config om risk ticker desired now adverse k
  unfolding reprice_ask ask_crosses
  reprice_ask-halted adverse k h = rw (
      amend_ask-halted (ask_crosses config om risk ticker desired now k.own)
        (record k { own = record (k.own) { ask_fade_pending = false } }) h)

  pub refresh_ask-halted :
      (k : Desk S)
      → is_halted risk ≡ true
      → refresh_ask config other risk ticker desired now k
        ≡ refresh_ask config om risk ticker desired now k
  unfolding refresh_ask ask_crosses
  refresh_ask-halted k h = rw (
    closed buys_no (complement_price desired) config.quote_size h,
    reprice_ask-halted (leb_ℤ config.theo_jump_cents (desired -ℤ k.own.quoted_ask_cents)) k h,
  )
