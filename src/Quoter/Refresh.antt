-- ===== src/Quoter/Refresh.antt =====
-- `refresh_bid` and `refresh_ask` of source/strategy/quoter.cpp: placing, repricing and fading one
-- resting quote. `own` is changed in place, so an exception leaves what was written before it.
use kalshi_market_maker.Prelude.{
  ℤ, ◌-ℤ◌, abs_ℤ, ltb_ℤ, leb_ℤ, Bool, true, false, not, ◌&&◌, String, Option, none, some,
  if◌then◌else◌, has_key, done, Action, pure, ◌>>=◌,
}
use kalshi_market_maker.Quantity.{from_contracts}
use kalshi_market_maker.Types.{buys_yes, buys_no, complement_price}
use kalshi_market_maker.Iface.{OrderManagerIface}
use kalshi_market_maker.Risk.{RiskManager, check_order}
use kalshi_market_maker.Quoter.{QuoterConfig, OwnQuote, is_blank, resting_too_young}

-- The quote pair of a market, and the state behind the order manager.
pub record Desk (S : Type 0) : Type 0 where
  pub own : OwnQuote
  pub orders : S

module _ {S : Type 0} where
  abbrev pub calls : {A : Type 0} → Action S A → Action (Desk S) A
  calls m desk = let (r, s) = m desk.orders in (r, record desk { orders = s })

  abbrev pub with_own : (OwnQuote → OwnQuote) → Action (Desk S) (Unit {0})
  with_own f desk = (done tt, record desk { own = f desk.own })

module _ {W S : Type 0} (config : QuoterConfig W) (om : OrderManagerIface W S)
    (risk : RiskManager W) where
  unfoldable pub release_order : String → Action S Bool
  release_order order_id = do
    cancelled ← om.cancel order_id
    if cancelled then pure true else λ s. (done (not (has_key order_id (om.open_orders s))), s)

  module _ (ticker : String) (desired now : ℤ) where
    unfoldable pub bid_crosses : OwnQuote → Bool
    bid_crosses own = not (is_blank own.ask_order_id) && leb_ℤ own.quoted_ask_cents desired

    abbrev pub bid_passes : Bool
    bid_passes = check_order risk ticker buys_yes desired config.quote_size

    unfoldable pub bid_rests : String → OwnQuote → OwnQuote
    bid_rests order_id own = record own {
      bid_order_id = order_id;
      quoted_bid_cents = desired;
      bid_placed_at = now;
    }

    unfoldable pub place_bid : Action (Desk S) (Unit {0})
    place_bid = do
      order ← calls (om.place ticker buys_yes desired config.quote_size)
      with_own (bid_rests order.id)

    -- Cancelled: forget the order, then place again unless that would cross our ask.
    unfoldable pub after_bid_release : Bool → Bool → Action (Desk S) (Unit {0})
    after_bid_release would_cross released desk =
        let cleared : Desk S = record desk { own = record (desk.own) { bid_order_id = "" } } in
        if not released
        then (done tt, desk)
        else if would_cross
        then (done tt, cleared)
        else if bid_passes
        then place_bid cleared
        else (done tt, cleared)

    unfoldable pub replace_bid : Bool → Action (Desk S) (Unit {0})
    replace_bid would_cross desk =
        (calls (release_order desk.own.bid_order_id) >>= after_bid_release would_cross) desk

    -- An amendment that the exchange refuses falls back to a cancel.
    unfoldable pub after_bid_amend : Bool → Option String → Action (Desk S) (Unit {0})
    after_bid_amend would_cross none desk = replace_bid would_cross desk
    after_bid_amend would_cross (some id) desk = with_own (bid_rests id) desk

    unfoldable pub amend_bid : Bool → Action (Desk S) (Unit {0})
    amend_bid would_cross desk =
        if not would_cross && bid_passes
        then (calls (
                om.amend desk.own.bid_order_id ticker buys_yes desired
                  (from_contracts config.quote_size))
              >>= after_bid_amend would_cross)
            desk
        else replace_bid would_cross desk

    -- A jump against the quote waits for a second update; either way the quote rests first.
    unfoldable pub reprice_bid : Bool → Action (Desk S) (Unit {0})
    reprice_bid adverse_jump desk =
        let fading : Desk S = record desk { own = record (desk.own) { bid_fade_pending = true } } in
        let settled : Desk S = record desk {
          own = record (desk.own) { bid_fade_pending = false };
        } in
        let rest_ms = if adverse_jump then config.fade_rest_ms else config.min_rest_ms in
        if adverse_jump && not desk.own.bid_fade_pending
        then (done tt, fading)
        else if resting_too_young desk.own.bid_placed_at now rest_ms
        then (done tt, (if adverse_jump then desk else settled))
        else amend_bid (bid_crosses desk.own) settled

    unfoldable pub refresh_bid : Action (Desk S) (Unit {0})
    refresh_bid desk =
        if is_blank desk.own.bid_order_id
        then (if bid_crosses desk.own
            then (done tt, desk)
            else if bid_passes
            then place_bid desk
            else (done tt, desk))
        else if ltb_ℤ config.reprice_threshold_cents (abs_ℤ (desk.own.quoted_bid_cents -ℤ desired))
        then reprice_bid (leb_ℤ config.theo_jump_cents (desk.own.quoted_bid_cents -ℤ desired)) desk
        else (done tt, desk)

    unfoldable pub ask_crosses : OwnQuote → Bool
    ask_crosses own = not (is_blank own.bid_order_id) && leb_ℤ desired own.quoted_bid_cents

    abbrev pub ask_passes : Bool
    ask_passes = check_order risk ticker buys_no (complement_price desired) config.quote_size

    unfoldable pub ask_rests : String → OwnQuote → OwnQuote
    ask_rests order_id own = record own {
      ask_order_id = order_id;
      quoted_ask_cents = desired;
      ask_placed_at = now;
    }

    unfoldable pub place_ask : Action (Desk S) (Unit {0})
    place_ask = do
      order ← calls (om.place ticker buys_no (complement_price desired) config.quote_size)
      with_own (ask_rests order.id)

    -- Cancelled: forget the order, then place again unless that would cross our bid.
    unfoldable pub after_ask_release : Bool → Bool → Action (Desk S) (Unit {0})
    after_ask_release would_cross released desk =
        let cleared : Desk S = record desk { own = record (desk.own) { ask_order_id = "" } } in
        if not released
        then (done tt, desk)
        else if would_cross
        then (done tt, cleared)
        else if ask_passes
        then place_ask cleared
        else (done tt, cleared)

    unfoldable pub replace_ask : Bool → Action (Desk S) (Unit {0})
    replace_ask would_cross desk =
        (calls (release_order desk.own.ask_order_id) >>= after_ask_release would_cross) desk

    -- An amendment that the exchange refuses falls back to a cancel.
    unfoldable pub after_ask_amend : Bool → Option String → Action (Desk S) (Unit {0})
    after_ask_amend would_cross none desk = replace_ask would_cross desk
    after_ask_amend would_cross (some id) desk = with_own (ask_rests id) desk

    unfoldable pub amend_ask : Bool → Action (Desk S) (Unit {0})
    amend_ask would_cross desk =
        if not would_cross && ask_passes
        then (calls (
                om.amend desk.own.ask_order_id ticker buys_no (complement_price desired)
                  (from_contracts config.quote_size))
              >>= after_ask_amend would_cross)
            desk
        else replace_ask would_cross desk

    -- A jump against the quote waits for a second update; either way the quote rests first.
    unfoldable pub reprice_ask : Bool → Action (Desk S) (Unit {0})
    reprice_ask adverse_jump desk =
        let fading : Desk S = record desk { own = record (desk.own) { ask_fade_pending = true } } in
        let settled : Desk S = record desk {
          own = record (desk.own) { ask_fade_pending = false };
        } in
        let rest_ms = if adverse_jump then config.fade_rest_ms else config.min_rest_ms in
        if adverse_jump && not desk.own.ask_fade_pending
        then (done tt, fading)
        else if resting_too_young desk.own.ask_placed_at now rest_ms
        then (done tt, (if adverse_jump then desk else settled))
        else amend_ask (ask_crosses desk.own) settled

    unfoldable pub refresh_ask : Action (Desk S) (Unit {0})
    refresh_ask desk =
        if is_blank desk.own.ask_order_id
        then (if ask_crosses desk.own
            then (done tt, desk)
            else if ask_passes
            then place_ask desk
            else (done tt, desk))
        else if ltb_ℤ config.reprice_threshold_cents (abs_ℤ (desk.own.quoted_ask_cents -ℤ desired))
        then reprice_ask (leb_ℤ config.theo_jump_cents (desired -ℤ desk.own.quoted_ask_cents)) desk
        else (done tt, desk)
