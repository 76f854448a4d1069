-- ===== src/Quoter/Kept.antt =====
-- `update` of source/strategy/quoter.cpp and the pairs of quotes that rest after it.
use kalshi_market_maker.Prelude.{
  ℤ, leb_ℤ, Bool, true, false, not, ◌&&◌, String, Option, none, some, if◌then◌else◌, Dict, insert,
  get_or, get_or-insert, ◌≡◌, arith, Action, ◌>>◌,
}
use kalshi_market_maker.Float.{Double}
use kalshi_market_maker.Types.{Level, Orderbook}
use kalshi_market_maker.Quoter.{OwnQuote, no_quote, is_blank}
use kalshi_market_maker.Quoter.Refresh.{Desk, release_order}
use kalshi_market_maker.Quoter.Crossing.{crossed, kept_by_call, kept_by_if, refresh_bid-crossed}
use kalshi_market_maker.Quoter.AskCrossing.{refresh_ask-crossed}
use kalshi_market_maker.Quoter.Wanted.{Tools, fair_value, smooth}
use kalshi_market_maker.Quoter.Update.{
  Quoter, drop_bid, drop_ask, want_bid, want_ask, quote_both, requote, reprice, reprice_between,
  update_quotes,
}

-- In no market do our two resting quotes meet.
abbrev pub IsUncrossed : {W S : Type 0} → Quoter W S → Type 0
IsUncrossed q = (t : String) → crossed (get_or t no_quote q.own_quotes) ≡ false

module _ {W S : Type 0} ⦃d : Double W⦄ (tools : Tools W S) (ticker : String) (wall_now : ℤ) where
  abbrev Stays : Desk S → Type 0
  Stays k = crossed k.own ≡ false

  drop_bid-crossed :
      (suppress : Bool) (k : Desk S) → Stays k → Stays (drop_bid tools ticker wall_now suppress k).1
  unfolding drop_bid
  drop_bid-crossed suppress k h =
      let answer = release_order tools.config tools.om tools.risk k.own.bid_order_id k.orders in
      let after : Desk S = record k { orders = answer.1 } in
      let cleared : Desk S = record after { own = record (k.own) { bid_order_id = "" } } in
      let blank : Stays cleared = ground arith in
      kept_by_if Stays (suppress && not (is_blank k.own.bid_order_id)) _ _
        (λ _. kept_by_call Stays answer.0 after _ h (λ released.
          elim released as (λ b. Stays (if b then cleared else after)) [
            | true ↦ blank
            | false ↦ h
          ]))
        (λ _. h)

  drop_ask-crossed :
      (suppress : Bool) (k : Desk S) → Stays k → Stays (drop_ask tools ticker wall_now suppress k).1
  unfolding drop_ask
  drop_ask-crossed suppress k h =
      let answer = release_order tools.config tools.om tools.risk k.own.ask_order_id k.orders in
      let after : Desk S = record k { orders = answer.1 } in
      let cleared : Desk S = record after { own = record (k.own) { ask_order_id = "" } } in
      let blank : Stays cleared = ground arith in
      kept_by_if Stays (suppress && not (is_blank k.own.ask_order_id)) _ _
        (λ _. kept_by_call Stays answer.0 after _ h (λ released.
          elim released as (λ b. Stays (if b then cleared else after)) [
            | true ↦ blank
            | false ↦ h
          ]))
        (λ _. h)

  want_bid-crossed :
      (suppress : Bool) (desired : Option ℤ) (now : ℤ) (k : Desk S)
      → Stays k
      → Stays (want_bid tools ticker wall_now suppress desired now k).1
  unfolding want_bid
  want_bid-crossed suppress none now k h = h
  want_bid-crossed suppress (some p) now k h =
      kept_by_if Stays suppress _ _ (λ _. h)
        (λ _. refresh_bid-crossed tools.config tools.om tools.risk ticker p now k h)

  want_ask-crossed :
      (suppress : Bool) (desired : Option ℤ) (now : ℤ) (k : Desk S)
      → Stays k
      → Stays (want_ask tools ticker wall_now suppress desired now k).1
  unfolding want_ask
  want_ask-crossed suppress none now k h = h
  want_ask-crossed suppress (some p) now k h =
      kept_by_if Stays suppress _ _ (λ _. h)
        (λ _. refresh_ask-crossed tools.config tools.om tools.risk ticker p now k h)

  then_keeps :
      (m n : Action (Desk S) (Unit {0})) (k : Desk S)
      → Stays (m k).1
      → ((j : Desk S) → Stays j → Stays (n j).1)
      → Stays ((m >> n) k).1
  then_keeps m n k h g = kept_by_call Stays (m k).0 (m k).1 _ h (λ _. g (m k).1 h)

  quote_both-crossed :
      (no_bid no_ask : Bool) (bid ask : Option ℤ) (now : ℤ) (k : Desk S)
      → Stays k
      → Stays (quote_both tools ticker wall_now no_bid no_ask bid ask now k).1
  unfolding quote_both
  quote_both-crossed no_bid no_ask bid ask now k h =
      let last = want_ask tools ticker wall_now no_ask ask now in
      let both = want_bid tools ticker wall_now no_bid bid now >> last in
      let drop = drop_ask tools ticker wall_now no_ask in
      then_keeps (drop_bid tools ticker wall_now no_bid) (drop >> both) k
        (drop_bid-crossed no_bid k h)
        (λ j g. then_keeps drop both j (drop_ask-crossed no_ask j g) (λ i f.
          then_keeps (want_bid tools ticker wall_now no_bid bid now) last i
            (want_bid-crossed no_bid bid now i f) (want_ask-crossed no_ask ask now)))

  -- Writing back one uncrossed pair.
  written_back :
      (own : OwnQuote) (quotes : Dict OwnQuote) (t : String)
      → crossed own ≡ false
      → crossed (get_or t no_quote quotes) ≡ false
      → crossed (get_or t no_quote (insert ticker own quotes)) ≡ false
  written_back own quotes t h g = ground (arith, h, g, get_or-insert ticker t own no_quote quotes)

  requote-IsUncrossed :
      (now : ℤ) (bid ask : Level) (fair : W) (q : Quoter W S)
      → IsUncrossed q
      → IsUncrossed (requote tools ticker wall_now now bid ask fair q).1
  unfolding requote
  requote-IsUncrossed now bid ask fair q h t =
      written_back _ q.own_quotes t (quote_both-crossed _ _ _ _ now _ (h ticker)) (h t)

  reprice-IsUncrossed :
      (now : ℤ) (micro : W) (bid ask : Level) (q : Quoter W S)
      → IsUncrossed q
      → IsUncrossed (reprice tools ticker wall_now now micro bid ask q).1
  unfolding reprice
  reprice-IsUncrossed now micro bid ask q h =
      let learned : Quoter W S = record q {
        fv_ema = insert ticker (smooth tools ticker wall_now q.fv_ema micro) q.fv_ema;
      } in
      kept_by_if IsUncrossed
        (d.is_finite
          (fair_value tools ticker wall_now (smooth tools ticker wall_now q.fv_ema micro)))
        _ _ (λ _. requote-IsUncrossed now bid ask _ learned h) (λ _. h)

  reprice_between-IsUncrossed :
      (now : ℤ) (micro : W) (bid ask : Option Level) (q : Quoter W S)
      → IsUncrossed q
      → IsUncrossed (reprice_between tools ticker wall_now now micro bid ask q).1
  unfolding reprice_between
  reprice_between-IsUncrossed now micro none ask q h = h
  reprice_between-IsUncrossed now micro (some bid) none q h = h
  reprice_between-IsUncrossed now micro (some bid) (some ask) q h =
      kept_by_if IsUncrossed (leb_ℤ ask.price_cents bid.price_cents) _ _ (λ _. h)
        (λ _. reprice-IsUncrossed now micro bid ask q h)

  -- If in no market our resting bid reaches our resting ask, the same holds after an update of
  -- any market, whatever the order manager answers, refuses or throws.
  pub update_quotes-IsUncrossed :
      (now : ℤ) (book : Orderbook) (q : Quoter W S)
      → IsUncrossed q
      → IsUncrossed (update_quotes tools ticker wall_now now book q).1
  unfolding update_quotes
  update_quotes-IsUncrossed now book q h =
      let own = get_or ticker no_quote q.own_quotes in
      let entered : Quoter W S = record q { own_quotes = insert ticker own q.own_quotes } in
      reprice_between-IsUncrossed now _ _ _ entered
        (λ t. written_back own q.own_quotes t (h ticker) (h t))
