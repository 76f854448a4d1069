-- ===== src/Quoter/Quiet.antt =====
-- The whole of `update` in source/strategy/quoter.cpp while trading is halted.
use kalshi_market_maker.Prelude.{
  ℤ, Bool, true, String, Option, none, some, if◌then◌else◌, insert, ◌≡◌, refl, ap, ◌∙◌, true,
  Action, Outcome, done, threw, panicked, ◌>>◌,
}
use kalshi_market_maker.Float.{Double}
use kalshi_market_maker.Quantity.{Quantity}
use kalshi_market_maker.Types.{Side, Order, Level, Orderbook}
use kalshi_market_maker.Risk.{is_halted}
use kalshi_market_maker.Quoter.Refresh.{Desk, release_order}
use kalshi_market_maker.Quoter.Halted.{
  with_entry_calls, same_after_call, refresh_bid-halted, refresh_ask-halted,
}
use kalshi_market_maker.Quoter.Wanted.{
  Tools, raw_quotes, half_spread_for, lean, with_longshot_edge, with_unwind_edge, fair_value,
  smooth,
}
use kalshi_market_maker.Quoter.Update.{
  Quoter, drop_bid, drop_ask, want_bid, want_ask, quote_both, requote, reprice, reprice_between,
  update_quotes,
}

then_same :
    {X : Type 0} (m m' n n' : Action X (Unit {0})) (k : X)
    → m k ≡ m' k
    → ((j : X) → n j ≡ n' j)
    → (m >> n) k ≡ (m' >> n') k
then_same {X} m m' n n' k e g =
    ap
      (λ (r : Outcome (Unit {0}) × X). elim r.0 as (λ _. Outcome (Unit {0}) × X) [
        | done _ ↦ n r.1
        | threw ↦ (threw, r.1)
        | panicked ↦ (panicked, r.1)
      ])
      e
    ∙ same_after_call (m' k).0 (m' k).1 (λ _. n (m' k).1) (λ _. n' (m' k).1) (λ _. g (m' k).1)

-- The tools of a quoter with any other `place` and `amend`.
abbrev pub with_other_calls :
    {W S : Type 0}
    → (String → Side → ℤ → ℤ → Action S Order)
    → (String → String → Side → ℤ → Quantity → Action S (Option String))
    → Tools W S
    → Tools W S
with_other_calls place amend tools = record tools { om = with_entry_calls place amend tools.om }

module _ {W S : Type 0} ⦃d : Double W⦄ (tools : Tools W S)
    (place : String → Side → ℤ → ℤ → Action S Order)
    (amend : String → String → Side → ℤ → Quantity → Action S (Option String)) (ticker : String)
    (wall_now now : ℤ) (closed : is_halted tools.risk ≡ true) where
  abbrev pub other : Tools W S
  other = with_other_calls place amend tools

  want_bid-quiet :
      (suppress : Bool) (desired : Option ℤ) (k : Desk S)
      → want_bid other ticker wall_now suppress desired now k
        ≡ want_bid tools ticker wall_now suppress desired now k
  unfolding want_bid
  want_bid-quiet suppress none k = refl
  want_bid-quiet suppress (some p) k =
      rw (refresh_bid-halted tools.config tools.om tools.risk place amend ticker p now k closed)

  want_ask-quiet :
      (suppress : Bool) (desired : Option ℤ) (k : Desk S)
      → want_ask other ticker wall_now suppress desired now k
        ≡ want_ask tools ticker wall_now suppress desired now k
  unfolding want_ask
  want_ask-quiet suppress none k = refl
  want_ask-quiet suppress (some p) k =
      rw (refresh_ask-halted tools.config tools.om tools.risk place amend ticker p now k closed)

  quote_both-quiet :
      (no_bid no_ask : Bool) (bid ask : Option ℤ) (k : Desk S)
      → quote_both other ticker wall_now no_bid no_ask bid ask now k
        ≡ quote_both tools ticker wall_now no_bid no_ask bid ask now k
  unfolding quote_both drop_bid drop_ask release_order
  quote_both-quiet no_bid no_ask bid ask k =
      then_same (drop_bid other ticker wall_now no_bid) (drop_bid tools ticker wall_now no_bid) _ _
        k refl
        (λ j.
          then_same (drop_ask other ticker wall_now no_ask) (drop_ask tools ticker wall_now no_ask)
            _ _ j refl
            (λ i.
              then_same (want_bid other ticker wall_now no_bid bid now)
                (want_bid tools ticker wall_now no_bid bid now) _ _ i (want_bid-quiet no_bid bid i)
                (want_ask-quiet no_ask ask)))

  requote-quiet :
      (bid ask : Level) (fair : W) (q : Quoter W S)
      → requote other ticker wall_now now bid ask fair q
        ≡ requote tools ticker wall_now now bid ask fair q
  unfolding requote raw_quotes half_spread_for lean with_longshot_edge with_unwind_edge
  requote-quiet bid ask fair q =
      ap
        (λ (after : Outcome (Unit {0}) × Desk S). (
          after.0,
          record q { own_quotes = insert ticker after.1.own q.own_quotes; orders = after.1.orders },
        ))
        (quote_both-quiet _ _ _ _ _)

  reprice-quiet :
      (micro : W) (bid ask : Level) (q : Quoter W S)
      → reprice other ticker wall_now now micro bid ask q
        ≡ reprice tools ticker wall_now now micro bid ask q
  unfolding reprice fair_value smooth
  reprice-quiet micro bid ask q =
      let smoothed = smooth tools ticker wall_now q.fv_ema micro in
      let learned : Quoter W S = record q { fv_ema = insert ticker smoothed q.fv_ema } in
      let fair = fair_value tools ticker wall_now smoothed in
      ap
        (λ (r : Outcome (Unit {0}) × Quoter W S).
          if d.is_finite fair then r else (panicked, learned))
        (requote-quiet bid ask fair learned)

  reprice_between-quiet :
      (micro : W) (bid ask : Option Level) (q : Quoter W S)
      → reprice_between other ticker wall_now now micro bid ask q
        ≡ reprice_between tools ticker wall_now now micro bid ask q
  unfolding reprice_between
  reprice_between-quiet micro none ask q = refl
  reprice_between-quiet micro (some bid) none q = refl
  reprice_between-quiet micro (some bid) (some ask) q = rw (reprice-quiet micro bid ask q)

  -- While the risk manager is halted, an update neither places nor amends: its result and the
  -- state after it are the same whatever these two calls of the order manager would do.
  pub update_quotes-quiet :
      (book : Orderbook) (q : Quoter W S)
      → update_quotes other ticker wall_now now book q
        ≡ update_quotes tools ticker wall_now now book q
  unfolding update_quotes
  update_quotes-quiet book q = reprice_between-quiet _ _ _ _
