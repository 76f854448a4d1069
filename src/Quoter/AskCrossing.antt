-- ===== src/Quoter/AskCrossing.antt =====
-- The self-cross guard of `refresh_ask` in source/strategy/quoter.cpp.
use kalshi_market_maker.Prelude.{
  ℤ, ◌-ℤ◌, leb_ℤ, Bool, false, not, ◌&&◌, String, Option, none, some, ◌≡◌, arith,
}
use kalshi_market_maker.Quantity.{from_contracts}
use kalshi_market_maker.Types.{buys_no, complement_price}
use kalshi_market_maker.Iface.{OrderManagerIface}
use kalshi_market_maker.Risk.{RiskManager, check_order}
use kalshi_market_maker.Quoter.{QuoterConfig}
use kalshi_market_maker.Quoter.Refresh.{
  Desk, release_order, ask_crosses, ask_rests, place_ask, replace_ask, amend_ask, reprice_ask,
  refresh_ask, after_ask_release, after_ask_amend,
}
use kalshi_market_maker.Quoter.Crossing.{crossed, kept_by_call, kept_by_if}

module _ {W S : Type 0} (config : QuoterConfig W) (om : OrderManagerIface W S)
    (risk : RiskManager W) (ticker : String) (desired now : ℤ) where
  abbrev Stays : Desk S → Type 0
  Stays k = crossed k.own ≡ false

  place_ask-crossed :
      (k : Desk S)
      → crossed k.own ≡ false
      → ask_crosses config om risk ticker desired now k.own ≡ false
      → crossed (place_ask config om risk ticker desired now k).1.own ≡ false
  unfolding place_ask ask_rests ask_crosses
  place_ask-crossed k h c = ground (arith, h, c)

  after_ask_release-crossed :
      (released : Bool) (k : Desk S)
      → crossed k.own ≡ false
      → crossed
          (after_ask_release config om risk ticker desired now
            (ask_crosses config om risk ticker desired now k.own)
            released
            k).1.own
        ≡ false
  unfolding after_ask_release ask_crosses
  after_ask_release-crossed released k h =
      let cleared : Desk S = record k { own = record (k.own) { ask_order_id = "" } } in
      let blank : Stays cleared = ground arith in
      kept_by_if Stays (not released) _ _ (λ _. h)
        (λ _.
          kept_by_if Stays (ask_crosses config om risk ticker desired now k.own) _ _ (λ _. blank)
            (λ c.
              kept_by_if Stays
                (check_order risk ticker buys_no (complement_price desired) config.quote_size) _ _
                (λ _. place_ask-crossed cleared blank c) (λ _. blank)))

  replace_ask-crossed :
      (k : Desk S)
      → crossed k.own ≡ false
      → crossed
          (replace_ask config om risk ticker desired now
            (ask_crosses config om risk ticker desired now k.own)
            k).1.own
        ≡ false
  unfolding replace_ask
  replace_ask-crossed k h =
      let answer = release_order config om risk k.own.ask_order_id k.orders in
      kept_by_call Stays answer.0 (record k { orders = answer.1 }) _ h
        (λ released. after_ask_release-crossed released (record k { orders = answer.1 }) h)

  after_ask_amend-crossed :
      (amended : Option String) (k : Desk S)
      → crossed k.own ≡ false
      → ask_crosses config om risk ticker desired now k.own ≡ false
      → crossed
          (after_ask_amend config om risk ticker desired now
            (ask_crosses config om risk ticker desired now k.own)
            amended
            k).1.own
        ≡ false
  unfolding after_ask_amend ask_crosses ask_rests
  after_ask_amend-crossed none k h c = replace_ask-crossed k h
  after_ask_amend-crossed (some id) k h c = ground (arith, h, c)

  amend_ask-crossed :
      (k : Desk S)
      → crossed k.own ≡ false
      → crossed
          (amend_ask config om risk ticker desired now
            (ask_crosses config om risk ticker desired now k.own)
            k).1.own
        ≡ false
  unfolding amend_ask
  amend_ask-crossed k h =
      let answer =
        om.amend k.own.ask_order_id ticker buys_no (complement_price desired)
          (from_contracts config.quote_size) k.orders in
      let after : Desk S = record k { orders = answer.1 } in
      kept_by_if Stays
        (not (ask_crosses config om risk ticker desired now k.own)
          && check_order risk ticker buys_no (complement_price desired) config.quote_size)
        _ _
        (λ c.
          kept_by_call Stays answer.0 after _ h
            (λ amended. after_ask_amend-crossed amended after h (ground (arith, c))))
        (λ _. replace_ask-crossed k h)

  reprice_ask-crossed :
      (adverse_jump : Bool) (k : Desk S)
      → crossed k.own ≡ false
      → crossed (reprice_ask config om risk ticker desired now adverse_jump k).1.own ≡ false
  unfolding reprice_ask ask_crosses
  reprice_ask-crossed adverse_jump k h = ground (
    arith,
    h,
    amend_ask-crossed (record k { own = record (k.own) { ask_fade_pending = false } }) h,
  )

  pub refresh_ask-crossed :
      (k : Desk S)
      → crossed k.own ≡ false
      → crossed (refresh_ask config om risk ticker desired now k).1.own ≡ false
  unfolding refresh_ask
  refresh_ask-crossed k h = ground (
    arith,
    h,
    place_ask-crossed k h,
    reprice_ask-crossed (leb_ℤ config.theo_jump_cents (desired -ℤ k.own.quoted_ask_cents)) k h,
  )
