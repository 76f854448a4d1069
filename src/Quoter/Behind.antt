-- ===== src/Quoter/Behind.antt =====
-- The state behind the order manager over a whole `update` of source/strategy/quoter.cpp.
use kalshi_market_maker.Prelude.{
  ℤ, leb_ℤ, Bool, true, false, not, ◌&&◌, String, Option, none, some, if◌then◌else◌, done, threw,
  Action, ◌>>◌, ◌≡◌, Outcome,
}
use mathlib.Core.Path.{subst}
use kalshi_market_maker.Float.{Double}
use kalshi_market_maker.Types.{Side, Order, Level, Orderbook}
use kalshi_market_maker.Quantity.{Quantity}
use kalshi_market_maker.Risk.{is_halted}
use kalshi_market_maker.Quoter.{is_blank}
use kalshi_market_maker.Quoter.Crossing.{kept_by_call, kept_by_if}
use kalshi_market_maker.Quoter.Refresh.{Desk, release_order}
use kalshi_market_maker.Quoter.Calls.{
  CallsKeep, call_keeps, release_order-keeps, refresh_bid-keeps, refresh_ask-keeps,
}
use kalshi_market_maker.Quoter.Quiet.{with_other_calls, update_quotes-quiet}
use kalshi_market_maker.Quoter.Wanted.{Tools, fair_value, smooth}
use kalshi_market_maker.Quoter.Update.{
  Quoter, drop_bid, drop_ask, want_bid, want_ask, quote_both, requote, reprice, reprice_between,
  update_quotes,
}

module _ {W S : Type 0} ⦃d : Double W⦄ (tools : Tools W S) (ticker : String) (wall_now : ℤ)
    (G : S → Type 0) (c : CallsKeep tools.om G) where
  abbrev Holds : Desk S → Type 0
  Holds k = G k.orders

  drop_bid-keeps :
      (suppress : Bool) (k : Desk S) → Holds k → Holds (drop_bid tools ticker wall_now suppress k).1
  unfolding drop_bid
  drop_bid-keeps suppress k h =
      kept_by_if Holds (suppress && not (is_blank k.own.bid_order_id)) _ _
        (λ _.
          call_keeps tools.config tools.om tools.risk G c
            (release_order tools.config tools.om tools.risk k.own.bid_order_id)
            (λ released j. (
              done tt,
              (if released then record j { own = record (j.own) { bid_order_id = "" } } else j),
            ))
            k
            (release_order-keeps tools.config tools.om tools.risk G c k.own.bid_order_id k.orders h)
            (λ released j g.
              elim released
                as (λ b.
                  G
                    (if b
                      then record j { own = record (j.own) { bid_order_id = "" } }
                      else j).orders) [ true ↦ g | false ↦ g ]))
        (λ _. h)

  drop_ask-keeps :
      (suppress : Bool) (k : Desk S) → Holds k → Holds (drop_ask tools ticker wall_now suppress k).1
  unfolding drop_ask
  drop_ask-keeps suppress k h =
      kept_by_if Holds (suppress && not (is_blank k.own.ask_order_id)) _ _
        (λ _.
          call_keeps tools.config tools.om tools.risk G c
            (release_order tools.config tools.om tools.risk k.own.ask_order_id)
            (λ released j. (
              done tt,
              (if released then record j { own = record (j.own) { ask_order_id = "" } } else j),
            ))
            k
            (release_order-keeps tools.config tools.om tools.risk G c k.own.ask_order_id k.orders h)
            (λ released j g.
              elim released
                as (λ b.
                  G
                    (if b
                      then record j { own = record (j.own) { ask_order_id = "" } }
                      else j).orders) [ true ↦ g | false ↦ g ]))
        (λ _. h)

  want_bid-keeps :
      (suppress : Bool) (desired : Option ℤ) (now : ℤ) (k : Desk S)
      → Holds k
      → Holds (want_bid tools ticker wall_now suppress desired now k).1
  unfolding want_bid
  want_bid-keeps suppress none now k h = h
  want_bid-keeps suppress (some p) now k h =
      kept_by_if Holds suppress _ _ (λ _. h)
        (λ _. refresh_bid-keeps tools.config tools.om tools.risk G c ticker p now k h)

  want_ask-keeps :
      (suppress : Bool) (desired : Option ℤ) (now : ℤ) (k : Desk S)
      → Holds k
      → Holds (want_ask tools ticker wall_now suppress desired now k).1
  unfolding want_ask
  want_ask-keeps suppress none now k h = h
  want_ask-keeps suppress (some p) now k h =
      kept_by_if Holds suppress _ _ (λ _. h)
        (λ _. refresh_ask-keeps tools.config tools.om tools.risk G c ticker p now k h)

  then_keeps :
      (m n : Action (Desk S) (Unit {0})) (k : Desk S)
      → Holds (m k).1
      → ((j : Desk S) → Holds j → Holds (n j).1)
      → Holds ((m >> n) k).1
  then_keeps m n k h g = kept_by_call Holds (m k).0 (m k).1 _ h (λ _. g (m k).1 h)

  quote_both-keeps :
      (no_bid no_ask : Bool) (bid ask : Option ℤ) (now : ℤ) (k : Desk S)
      → Holds k
      → Holds (quote_both tools ticker wall_now no_bid no_ask bid ask now k).1
  unfolding quote_both
  quote_both-keeps no_bid no_ask bid ask now k h =
      let last = want_ask tools ticker wall_now no_ask ask now in
      let both = want_bid tools ticker wall_now no_bid bid now >> last in
      let drop = drop_ask tools ticker wall_now no_ask in
      then_keeps (drop_bid tools ticker wall_now no_bid) (drop >> both) k
        (drop_bid-keeps no_bid k h)
        (λ j g. then_keeps drop both j (drop_ask-keeps no_ask j g) (λ i f.
          then_keeps (want_bid tools ticker wall_now no_bid bid now) last i
            (want_bid-keeps no_bid bid now i f) (want_ask-keeps no_ask ask now)))

  reprice-keeps :
      (now : ℤ) (micro : W) (bid ask : Level) (q : Quoter W S)
      → G q.orders
      → G (reprice tools ticker wall_now now micro bid ask q).1.orders
  unfolding reprice requote
  reprice-keeps now micro bid ask q h =
      kept_by_if (λ (q : Quoter W S). G q.orders)
        (d.is_finite
          (fair_value tools ticker wall_now (smooth tools ticker wall_now q.fv_ema micro)))
        _ _ (λ _. quote_both-keeps _ _ _ _ now _ h) (λ _. h)

  reprice_between-keeps :
      (now : ℤ) (micro : W) (bid ask : Option Level) (q : Quoter W S)
      → G q.orders
      → G (reprice_between tools ticker wall_now now micro bid ask q).1.orders
  unfolding reprice_between
  reprice_between-keeps now micro none ask q h = h
  reprice_between-keeps now micro (some bid) none q h = h
  reprice_between-keeps now micro (some bid) (some ask) q h =
      kept_by_if (λ (q : Quoter W S). G q.orders) (leb_ℤ ask.price_cents bid.price_cents) _ _
        (λ _. h) (λ _. reprice-keeps now micro bid ask q h)

  update_quotes-keeps :
      (now : ℤ) (book : Orderbook) (q : Quoter W S)
      → G q.orders
      → G (update_quotes tools ticker wall_now now book q).1.orders
  unfolding update_quotes
  update_quotes-keeps now book q h = reprice_between-keeps now _ _ _ _ h

-- What cancellations keep, an update keeps while trading is halted.
pub halted-keeps :
    {W S : Type 0} ⦃d : Double W⦄ (tools : Tools W S) (ticker : String) (wall_now now : ℤ)
    (G : S → Type 0)
    → ((id : String) (s : S) → G s → G (tools.om.cancel id s).1)
    → is_halted tools.risk ≡ true
    → (book : Orderbook) (q : Quoter W S) → G q.orders
    → G (update_quotes tools ticker wall_now now book q).1.orders
halted-keeps {W} {S} tools ticker wall_now now G c closed book q h =
    let no_place : String → Side → ℤ → ℤ → Action S Order = λ t side p n s. (threw, s) in
    let no_amend : String → String → Side → ℤ → Quantity → Action S (Option String) =
      λ i t side p n s. (threw, s) in
    subst (λ (r : Outcome (Unit {0}) × Quoter W S). G r.1.orders)
      (update_quotes-quiet tools no_place no_amend ticker wall_now now closed book q)
      (update_quotes-keeps (with_other_calls no_place no_amend tools) ticker wall_now G
        (record { place = λ t side p n s g. g; cancel = c; amend = λ i t side p n s g. g }) now book
        q h)
