-- ===== src/Quoter/Calls.antt =====
-- The calls of the order manager that `update` of source/strategy/quoter.cpp makes, and nothing else it
-- does to the state behind them.
use kalshi_market_maker.Prelude.{
  ℤ, ◌-ℤ◌, abs_ℤ, ltb_ℤ, Bool, true, false, not, ◌&&◌, String, Option, none, some, if◌then◌else◌,
  has_key, Outcome, done, threw, panicked, Action, pure, ◌>>=◌,
}
use kalshi_market_maker.Quantity.{Quantity, from_contracts}
use kalshi_market_maker.Types.{Side, buys_yes, buys_no, complement_price}
use kalshi_market_maker.Iface.{OrderManagerIface}
use kalshi_market_maker.Risk.{RiskManager}
use kalshi_market_maker.Quoter.{QuoterConfig, is_blank, resting_too_young}
use kalshi_market_maker.Quoter.Crossing.{kept_by_call, kept_by_if}
use kalshi_market_maker.Quoter.Refresh.{
  Desk, calls, with_own, release_order, bid_crosses, bid_passes, bid_rests, place_bid,
  after_bid_release, replace_bid, after_bid_amend, amend_bid, reprice_bid, refresh_bid, ask_crosses,
  ask_passes, ask_rests, place_ask, after_ask_release, replace_ask, after_ask_amend, amend_ask,
  reprice_ask, refresh_ask,
}

-- The calls keep what holds of the state behind them, whatever they give.
pub record CallsKeep {W S : Type 0} (om : OrderManagerIface W S) (G : S → Type 0) : Type 0 where
  pub place :
      (ticker : String) (side : Side) (price quantity : ℤ) (s : S)
      → G s
      → G (om.place ticker side price quantity s).1
  pub cancel : (id : String) (s : S) → G s → G (om.cancel id s).1
  pub amend :
      (id ticker : String) (side : Side) (price : ℤ) (size : Quantity) (s : S)
      → G s
      → G (om.amend id ticker side price size s).1

module _ {W S : Type 0} (config : QuoterConfig W) (om : OrderManagerIface W S)
    (risk : RiskManager W) (G : S → Type 0) (c : CallsKeep om G) where
  abbrev pub Holds : Desk S → Type 0
  Holds k = G k.orders

  pub call_keeps :
      {A : Type 0} (m : Action S A) (go : A → Action (Desk S) (Unit {0})) (k : Desk S)
      → G (m k.orders).1
      → ((a : A) (j : Desk S) → Holds j → Holds (go a j).1)
      → Holds ((calls m >>= go) k).1
  call_keeps m go k h g =
      let after : Desk S = record k { orders = (m k.orders).1 } in
      kept_by_call Holds (m k.orders).0 after (λ a. go a after) h (λ a. g a after h)

  pub release_order-keeps : (id : String) (s : S) → G s → G (release_order config om risk id s).1
  unfolding release_order
  release_order-keeps id s h = released (om.cancel id s).0 (om.cancel id s).1 (c.cancel id s h)
    where
      released :
          (r : Outcome Bool) (t : S)
          → G t
          → G
              (elim r as (λ _. Outcome Bool × S) [
                | done b ↦
                    (if b
                        then pure true
                        else (λ u. (done (not (has_key id (om.open_orders u))), u)))
                      t
                | threw ↦ (threw, t)
                | panicked ↦ (panicked, t)
              ]).1
      released (done true) t g = g
      released (done false) t g = g
      released threw t g = g
      released panicked t g = g

  module _ (ticker : String) (desired now : ℤ) where
    place_bid-keeps :
        (k : Desk S) → Holds k → Holds (place_bid config om risk ticker desired now k).1
    unfolding place_bid
    place_bid-keeps k h =
        call_keeps (om.place ticker buys_yes desired config.quote_size)
          (λ order. with_own (bid_rests config om risk ticker desired now order.id)) k
          (c.place ticker buys_yes desired config.quote_size k.orders h) (λ order j g. g)

    place_ask-keeps :
        (k : Desk S) → Holds k → Holds (place_ask config om risk ticker desired now k).1
    unfolding place_ask
    place_ask-keeps k h =
        call_keeps (om.place ticker buys_no (complement_price desired) config.quote_size)
          (λ order. with_own (ask_rests config om risk ticker desired now order.id)) k
          (c.place ticker buys_no (complement_price desired) config.quote_size k.orders h)
          (λ order j g. g)

    after_bid_release-keeps :
        (would released : Bool) (k : Desk S)
        → Holds k
        → Holds (after_bid_release config om risk ticker desired now would released k).1
    unfolding after_bid_release
    after_bid_release-keeps would released k h =
        kept_by_if Holds (not released) _ _ (λ _. h)
          (λ _.
            kept_by_if Holds would _ _ (λ _. h)
              (λ _.
                kept_by_if Holds (bid_passes config om risk ticker desired now) _ _
                  (λ _. place_bid-keeps _ h) (λ _. h)))

    after_ask_release-keeps :
        (would released : Bool) (k : Desk S)
        → Holds k
        → Holds (after_ask_release config om risk ticker desired now would released k).1
    unfolding after_ask_release
    after_ask_release-keeps would released k h =
        kept_by_if Holds (not released) _ _ (λ _. h)
          (λ _.
            kept_by_if Holds would _ _ (λ _. h)
              (λ _.
                kept_by_if Holds (ask_passes config om risk ticker desired now) _ _
                  (λ _. place_ask-keeps _ h) (λ _. h)))

    replace_bid-keeps :
        (would : Bool) (k : Desk S)
        → Holds k
        → Holds (replace_bid config om risk ticker desired now would k).1
    unfolding replace_bid
    replace_bid-keeps would k h =
        call_keeps (release_order config om risk k.own.bid_order_id)
          (after_bid_release config om risk ticker desired now would) k
          (release_order-keeps k.own.bid_order_id k.orders h) (after_bid_release-keeps would)

    replace_ask-keeps :
        (would : Bool) (k : Desk S)
        → Holds k
        → Holds (replace_ask config om risk ticker desired now would k).1
    unfolding replace_ask
    replace_ask-keeps would k h =
        call_keeps (release_order config om risk k.own.ask_order_id)
          (after_ask_release config om risk ticker desired now would) k
          (release_order-keeps k.own.ask_order_id k.orders h) (after_ask_release-keeps would)

    after_bid_amend-keeps :
        (would : Bool) (id : Option String) (k : Desk S)
        → Holds k
        → Holds (after_bid_amend config om risk ticker desired now would id k).1
    unfolding after_bid_amend
    after_bid_amend-keeps would none k h = replace_bid-keeps would k h
    after_bid_amend-keeps would (some id) k h = h

    after_ask_amend-keeps :
        (would : Bool) (id : Option String) (k : Desk S)
        → Holds k
        → Holds (after_ask_amend config om risk ticker desired now would id k).1
    unfolding after_ask_amend
    after_ask_amend-keeps would none k h = replace_ask-keeps would k h
    after_ask_amend-keeps would (some id) k h = h

    amend_bid-keeps :
        (would : Bool) (k : Desk S)
        → Holds k
        → Holds (amend_bid config om risk ticker desired now would k).1
    unfolding amend_bid
    amend_bid-keeps would k h =
        kept_by_if Holds (not would && bid_passes config om risk ticker desired now) _ _
          (λ _.
            call_keeps
              (om.amend k.own.bid_order_id ticker buys_yes desired
                (from_contracts config.quote_size))
              (after_bid_amend config om risk ticker desired now would) k
              (c.amend k.own.bid_order_id ticker buys_yes desired (from_contracts config.quote_size)
                k.orders h)
              (after_bid_amend-keeps would))
          (λ _. replace_bid-keeps would k h)

    amend_ask-keeps :
        (would : Bool) (k : Desk S)
        → Holds k
        → Holds (amend_ask config om risk ticker desired now would k).1
    unfolding amend_ask
    amend_ask-keeps would k h =
        kept_by_if Holds (not would && ask_passes config om risk ticker desired now) _ _
          (λ _.
            call_keeps
              (om.amend k.own.ask_order_id ticker buys_no (complement_price desired)
                (from_contracts config.quote_size))
              (after_ask_amend config om risk ticker desired now would) k
              (c.amend k.own.ask_order_id ticker buys_no (complement_price desired)
                (from_contracts config.quote_size) k.orders h)
              (after_ask_amend-keeps would))
          (λ _. replace_ask-keeps would k h)

    reprice_bid-keeps :
        (jump : Bool) (k : Desk S)
        → Holds k
        → Holds (reprice_bid config om risk ticker desired now jump k).1
    unfolding reprice_bid
    reprice_bid-keeps jump k h =
        kept_by_if Holds (jump && not k.own.bid_fade_pending) _ _ (λ _. h)
          (λ _.
            kept_by_if Holds
              (resting_too_young k.own.bid_placed_at now
                (if jump then config.fade_rest_ms else config.min_rest_ms))
              _ _
              (λ _.
                elim jump
                  as (λ b.
                    G
                      (if b then k else record k {
                        own = record (k.own) { bid_fade_pending = false };
                      }).orders) [ true ↦ h | false ↦ h ])
              (λ _. amend_bid-keeps _ _ h))

    reprice_ask-keeps :
        (jump : Bool) (k : Desk S)
        → Holds k
        → Holds (reprice_ask config om risk ticker desired now jump k).1
    unfolding reprice_ask
    reprice_ask-keeps jump k h =
        kept_by_if Holds (jump && not k.own.ask_fade_pending) _ _ (λ _. h)
          (λ _.
            kept_by_if Holds
              (resting_too_young k.own.ask_placed_at now
                (if jump then config.fade_rest_ms else config.min_rest_ms))
              _ _
              (λ _.
                elim jump
                  as (λ b.
                    G
                      (if b then k else record k {
                        own = record (k.own) { ask_fade_pending = false };
                      }).orders) [ true ↦ h | false ↦ h ])
              (λ _. amend_ask-keeps _ _ h))

    pub refresh_bid-keeps :
        (k : Desk S) → Holds k → Holds (refresh_bid config om risk ticker desired now k).1
    unfolding refresh_bid
    refresh_bid-keeps k h =
        kept_by_if Holds (is_blank k.own.bid_order_id) _ _
          (λ _.
            kept_by_if Holds (bid_crosses config om risk ticker desired now k.own) _ _ (λ _. h)
              (λ _.
                kept_by_if Holds (bid_passes config om risk ticker desired now) _ _
                  (λ _. place_bid-keeps k h) (λ _. h)))
          (λ _.
            kept_by_if Holds
              (ltb_ℤ config.reprice_threshold_cents (abs_ℤ (k.own.quoted_bid_cents -ℤ desired))) _ _
              (λ _. reprice_bid-keeps _ k h) (λ _. h))

    pub refresh_ask-keeps :
        (k : Desk S) → Holds k → Holds (refresh_ask config om risk ticker desired now k).1
    unfolding refresh_ask
    refresh_ask-keeps k h =
        kept_by_if Holds (is_blank k.own.ask_order_id) _ _
          (λ _.
            kept_by_if Holds (ask_crosses config om risk ticker desired now k.own) _ _ (λ _. h)
              (λ _.
                kept_by_if Holds (ask_passes config om risk ticker desired now) _ _
                  (λ _. place_ask-keeps k h) (λ _. h)))
          (λ _.
            kept_by_if Holds
              (ltb_ℤ config.reprice_threshold_cents (abs_ℤ (k.own.quoted_ask_cents -ℤ desired))) _ _
              (λ _. reprice_ask-keeps _ k h) (λ _. h))
