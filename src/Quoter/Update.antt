-- ===== src/Quoter/Update.antt =====
-- `update` of source/strategy/quoter.cpp: from the book of a market to our two quotes in it. The
-- analytics event is left out. `wall_now` is the system clock, `now` the steady clock.
use kalshi_market_maker.Prelude.{
  ℤ, leb_ℤ, Bool, not, ◌&&◌, ◌||◌, String, Option, none, some, if◌then◌else◌, Dict, lookup, insert,
  get_or, [], done, panicked, Action, ◌>>=◌, ◌>>◌,
}
use kalshi_market_maker.Float.{Double}
use kalshi_market_maker.Quantity
use kalshi_market_maker.Quantity.{contracts}
use kalshi_market_maker.Types.{
  Side, buys_yes, buys_no, Level, Orderbook, Order, remaining_quantity, complement_price,
}
use kalshi_market_maker.Book.{apply_delta, best_bid, best_ask}
use kalshi_market_maker.Book.Prices.{micro_price_cents}
use kalshi_market_maker.Quoter.{OwnQuote, no_quote, is_blank, passive_bid, passive_ask}
use kalshi_market_maker.Quoter.Wanted.{Tools, zero_w, smooth, fair_value, raw_quotes}
use kalshi_market_maker.Quoter.Refresh.{Desk, calls, release_order, refresh_bid, refresh_ask}

-- The fields of `Quoter` that change, and the state behind the order manager.
pub record Quoter (W S : Type 0) : Type 0 where
  pub fv_ema : Dict W
  pub own_quotes : Dict OwnQuote
  pub reduce_only : Bool
  pub orders : S

-- One side of `book_without_own_quotes`: what is left of our order comes off its level.
abbrev without_order : Dict Order → String → Side → ℤ → Orderbook → Orderbook
without_order orders order_id side price book =
    if is_blank order_id then book else elim (lookup order_id orders) [
      | none ↦ book
      | some order ↦ apply_delta book side price (Quantity.negated (remaining_quantity order))
    ]

unfoldable pub book_without_own_quotes : Dict Order → OwnQuote → Orderbook → Orderbook
book_without_own_quotes orders own book =
    without_order orders own.ask_order_id buys_no (complement_price own.quoted_ask_cents)
      (without_order orders own.bid_order_id buys_yes own.quoted_bid_cents book)

module _ {W S : Type 0} ⦃d : Double W⦄ (tools : Tools W S) (ticker : String) (wall_now : ℤ) where
  -- Take down the quotes that may not rest.
  unfoldable pub drop_bid : Bool → Action (Desk S) (Unit {0})
  drop_bid suppress desk =
      if suppress && not (is_blank desk.own.bid_order_id)
      then (calls (release_order tools.config tools.om tools.risk desk.own.bid_order_id)
            >>= λ released k. (
              done tt,
              (if released then record k { own = record (k.own) { bid_order_id = "" } } else k),
            ))
          desk
      else (done tt, desk)

  unfoldable pub drop_ask : Bool → Action (Desk S) (Unit {0})
  drop_ask suppress desk =
      if suppress && not (is_blank desk.own.ask_order_id)
      then (calls (release_order tools.config tools.om tools.risk desk.own.ask_order_id)
            >>= λ released k. (
              done tt,
              (if released then record k { own = record (k.own) { ask_order_id = "" } } else k),
            ))
          desk
      else (done tt, desk)

  unfoldable pub want_bid : Bool → Option ℤ → ℤ → Action (Desk S) (Unit {0})
  want_bid suppress none now desk = (done tt, desk)
  want_bid suppress (some desired) now desk =
      if suppress
      then (done tt, desk)
      else refresh_bid tools.config tools.om tools.risk ticker desired now desk

  unfoldable pub want_ask : Bool → Option ℤ → ℤ → Action (Desk S) (Unit {0})
  want_ask suppress none now desk = (done tt, desk)
  want_ask suppress (some desired) now desk =
      if suppress
      then (done tt, desk)
      else refresh_ask tools.config tools.om tools.risk ticker desired now desk

  -- The end of `update`, from the desired prices on.
  unfoldable pub quote_both : Bool → Bool → Option ℤ → Option ℤ → ℤ → Action (Desk S) (Unit {0})
  quote_both suppress_bid suppress_ask desired_bid desired_ask now =
      drop_bid suppress_bid
      >> (drop_ask suppress_ask
          >> (want_bid suppress_bid desired_bid now >> want_ask suppress_ask desired_ask now))

  abbrev inventory_cap : W
  inventory_cap =
      d.mul (d.of_int tools.config.inventory_cap_lots) (d.of_int tools.config.quote_size)

  -- The quotes of the market are changed in place, also when a call throws.
  unfoldable pub requote : ℤ → Level → Level → W → Action (Quoter W S) (Unit {0})
  requote now bid ask fair_val q =
      let inventory = contracts (tools.om.net_position q.orders ticker) in
      let raw = raw_quotes tools ticker wall_now fair_val inventory in
      let suppress_bid =
        (q.reduce_only && d.le (zero_w tools ticker wall_now) inventory)
        || d.le inventory_cap inventory in
      let suppress_ask =
        (q.reduce_only && d.le inventory (zero_w tools ticker wall_now))
        || d.le inventory (d.negate inventory_cap) in
      let desk : Desk S = record { own = get_or ticker no_quote q.own_quotes; orders = q.orders } in
      let after =
        quote_both suppress_bid suppress_ask (passive_bid raw.0 ask.price_cents)
          (passive_ask raw.1 bid.price_cents) now desk in
      (
        after.0,
        record q { own_quotes = insert ticker after.1.own q.own_quotes; orders = after.1.orders },
      )

  -- From the two best prices on: the fair value must be finite, or the process ends.
  unfoldable pub reprice : ℤ → W → Level → Level → Action (Quoter W S) (Unit {0})
  reprice now micro bid ask q =
      let smoothed = smooth tools ticker wall_now q.fv_ema micro in
      let learned : Quoter W S = record q { fv_ema = insert ticker smoothed q.fv_ema } in
      if d.is_finite (fair_value tools ticker wall_now smoothed)
      then requote now bid ask (fair_value tools ticker wall_now smoothed) learned
      else (panicked, learned)

  -- Without a price on each side, or on a crossed book, the resting quotes are kept.
  unfoldable pub reprice_between :
      ℤ → W → Option Level → Option Level → Action (Quoter W S) (Unit {0})
  reprice_between now micro none ask q = (done tt, q)
  reprice_between now micro (some bid) none q = (done tt, q)
  reprice_between now micro (some bid) (some ask) q =
      if leb_ℤ ask.price_cents bid.price_cents then (done tt, q) else reprice now micro bid ask q

  unfoldable pub update_quotes : ℤ → Orderbook → Action (Quoter W S) (Unit {0})
  update_quotes now book q =
      let own = get_or ticker no_quote q.own_quotes in
      let visible = book_without_own_quotes (tools.om.open_orders q.orders) own book in
      reprice_between now (micro_price_cents visible) (best_bid visible) (best_ask visible)
        (record q { own_quotes = insert ticker own q.own_quotes })

unfoldable pub reset_quotes : {W S : Type 0} → Quoter W S → Quoter W S
reset_quotes q = record q { own_quotes = []; fv_ema = [] }

unfoldable pub set_reduce_only : {W S : Type 0} → Bool → Quoter W S → Quoter W S
set_reduce_only reduce_only q = record q { reduce_only = reduce_only }
