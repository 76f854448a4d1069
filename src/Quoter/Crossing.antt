-- ===== src/Quoter/Crossing.antt =====
-- The self-cross guard of `refresh_bid` in source/strategy/quoter.cpp.
use kalshi_market_maker.Prelude.{
  ℤ, ◌-ℤ◌, leb_ℤ, Bool, true, false, not, ◌&&◌, String, Option, none, some, if◌then◌else◌, ◌≡◌,
  refl, arith, Outcome, done, threw, panicked,
}
use kalshi_market_maker.Quantity.{from_contracts}
use kalshi_market_maker.Types.{buys_yes}
use kalshi_market_maker.Iface.{OrderManagerIface}
use kalshi_market_maker.Risk.{RiskManager, check_order}
use kalshi_market_maker.Quoter.{QuoterConfig, OwnQuote, is_blank}
use kalshi_market_maker.Quoter.Refresh.{
  Desk, release_order, bid_crosses, bid_rests, place_bid, replace_bid, amend_bid, reprice_bid,
  refresh_bid, after_bid_release, after_bid_amend,
}

-- Both sides rest, and the bid reaches the ask.
abbrev pub crossed : OwnQuote → Bool
crossed own =
    not (is_blank own.bid_order_id)
    && (not (is_blank own.ask_order_id) && leb_ℤ own.quoted_ask_cents own.quoted_bid_cents)

-- What a call gives out keeps a property of the state that both its value and its failures keep.
pub kept_by_call :
    {A X : Type 0} (P : X → Type 0) (r : Outcome A) (x : X) (go : A → Outcome (Unit {0}) × X)
    → P x
    → ((a : A) → P (go a).1)
    → P
        (elim r as (λ _. Outcome (Unit {0}) × X) [
          | done a ↦ go a
          | threw ↦ (threw, x)
          | panicked ↦ (panicked, x)
        ]).1
kept_by_call P (done a) x go p q = q a
kept_by_call P threw x go p q = p
kept_by_call P panicked x go p q = p

pub kept_by_if :
    {X : Type 0} (P : X → Type 0) (b : Bool) (m n : Outcome (Unit {0}) × X)
    → (b ≡ true → P m.1)
    → (b ≡ false → P n.1)
    → P (if b then m else n).1
kept_by_if P true m n p q = p refl
kept_by_if P false m n p q = q refl

module _ {W S : Type 0} (config : QuoterConfig W) (om : OrderManagerIface W S)
    (risk : RiskManager W) (ticker : String) (desired now : ℤ) where
  abbrev Stays : Desk S → Type 0
  Stays k = crossed k.own ≡ false

  place_bid-crossed :
      (k : Desk S)
      → crossed k.own ≡ false
      → bid_crosses config om risk ticker desired now k.own ≡ false
      → crossed (place_bid config om risk ticker desired now k).1.own ≡ false
  unfolding place_bid bid_rests bid_crosses
  place_bid-crossed k h c = ground (arith, h, c)

  after_bid_release-crossed :
      (released : Bool) (k : Desk S)
      → crossed k.own ≡ false
      → crossed
          (after_bid_release config om risk ticker desired now
            (bid_crosses config om risk ticker desired now k.own)
            released
            k).1.own
        ≡ false
  unfolding after_bid_release bid_crosses
  after_bid_release-crossed released k h =
      let cleared : Desk S = record k { own = record (k.own) { bid_order_id = "" } } in
      let blank : Stays cleared = ground arith in
      kept_by_if Stays (not released) _ _ (λ _. h)
        (λ _.
          kept_by_if Stays (bid_crosses config om risk ticker desired now k.own) _ _ (λ _. blank)
            (λ c.
              kept_by_if Stays (check_order risk ticker buys_yes desired config.quote_size) _ _
                (λ _. place_bid-crossed cleared blank c) (λ _. blank)))

  replace_bid-crossed :
      (k : Desk S)
      → crossed k.own ≡ false
      → crossed
          (replace_bid config om risk ticker desired now
            (bid_crosses config om risk ticker desired now k.own)
            k).1.own
        ≡ false
  unfolding replace_bid
  replace_bid-crossed k h =
      let answer = release_order config om risk k.own.bid_order_id k.orders in
      kept_by_call Stays answer.0 (record k { orders = answer.1 }) _ h
        (λ released. after_bid_release-crossed released (record k { orders = answer.1 }) h)

  after_bid_amend-crossed :
      (amended : Option String) (k : Desk S)
      → crossed k.own ≡ false
      → bid_crosses config om risk ticker desired now k.own ≡ false
      → crossed
          (after_bid_amend config om risk ticker desired now
            (bid_crosses config om risk ticker desired now k.own)
            amended
            k).1.own
        ≡ false
  unfolding after_bid_amend bid_crosses bid_rests
  after_bid_amend-crossed none k h c = replace_bid-crossed k h
  after_bid_amend-crossed (some id) k h c = ground (arith, h, c)

  amend_bid-crossed :
      (k : Desk S)
      → crossed k.own ≡ false
      → crossed
          (amend_bid config om risk ticker desired now
            (bid_crosses config om risk ticker desired now k.own)
            k).1.own
        ≡ false
  unfolding amend_bid
  amend_bid-crossed k h =
      let answer =
        om.amend k.own.bid_order_id ticker buys_yes desired (from_contracts config.quote_size)
          k.orders in
      let after : Desk S = record k { orders = answer.1 } in
      kept_by_if Stays
        (not (bid_crosses config om risk ticker desired now k.own)
          && check_order risk ticker buys_yes desired config.quote_size)
        _ _
        (λ c.
          kept_by_call Stays answer.0 after _ h
            (λ amended. after_bid_amend-crossed amended after h (ground (arith, c))))
        (λ _. replace_bid-crossed k h)

  reprice_bid-crossed :
      (adverse_jump : Bool) (k : Desk S)
      → crossed k.own ≡ false
      → crossed (reprice_bid config om risk ticker desired now adverse_jump k).1.own ≡ false
  unfolding reprice_bid bid_crosses
  reprice_bid-crossed adverse_jump k h = ground (
    arith,
    h,
    amend_bid-crossed (record k { own = record (k.own) { bid_fade_pending = false } }) h,
  )

  pub refresh_bid-crossed :
      (k : Desk S)
      → crossed k.own ≡ false
      → crossed (refresh_bid config om risk ticker desired now k).1.own ≡ false
  unfolding refresh_bid
  refresh_bid-crossed k h = ground (
    arith,
    h,
    place_bid-crossed k h,
    reprice_bid-crossed (leb_ℤ config.theo_jump_cents (k.own.quoted_bid_cents -ℤ desired)) k h,
  )
