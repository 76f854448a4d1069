-- ===== src/Portfolio/Totals.antt =====
-- How the events of a snapshot share out the markets.
use kalshi_market_maker.Prelude.{
  ℕ, suc, ℤ, pos, ◌+ℤ◌, String, List, [], ◌∷◌, ◌≡◌, refl, sym, ◌∙◌, ap, Dict, insert, get_or,
  lookup, str_eq, length, int_laws, +ℤ_comm, pos_part, neg_part, zero_+ℤ, +ℤ_zero, Bool-cases, inl,
  inr,
}
use kalshi_market_maker.Float.{Double}
use kalshi_market_maker.Iface.{OrderManagerIface}
use kalshi_market_maker.Portfolio.{
  EventExposure, PortfolioSnapshot, add_exposure, snapshot_loop, snapshot, named_events,
  sort_events, insert_event, event_ticker_of, unrealized_at,
}

-- The markets that a list of events counts.
abbrev pub count_markets : {W : Type 0} → List (EventExposure W) → ℤ
count_markets [] = pos 0
count_markets (e ∷ es) = e.market_count +ℤ count_markets es

abbrev count_entries : {W : Type 0} → Dict (EventExposure W) → ℤ
count_entries [] = pos 0
count_entries ((k, e) ∷ m) = e.market_count +ℤ count_entries m

-- A write replaces the count of the entry that it replaces.
count-replaced :
    {W : Type 0} (k : String) (v blank : EventExposure W) (m : Dict (EventExposure W))
    → blank.market_count ≡ pos 0
    → count_entries (insert k v m) +ℤ (get_or k blank m).market_count
      ≡ count_entries m +ℤ v.market_count
unfolding insert get_or lookup
count-replaced k v blank [] e =
    rw e (+ℤ_comm (v.market_count +ℤ pos 0) (pos 0) ∙ ap (◌+ℤ◌ (pos 0)) (+ℤ_zero v.market_count))
count-replaced k v blank ((j, w) ∷ m) e = elim (Bool-cases (str_eq j k)) [
  | inl same ↦ rw (same, get_or, lookup) (omega int_laws)
  | inr other ↦
      let ih = count-replaced k v blank m e in
      rw (other, get_or, lookup) (omega (int_laws, ap pos_part ih, ap neg_part ih))
]

module _ {W S : Type 0} ⦃d : Double W⦄ (om : OrderManagerIface W S) where
  count-named : (m : Dict (EventExposure W)) → count_markets (named_events om m) ≡ count_entries m
  unfolding named_events
  count-named [] = refl
  count-named ((k, e) ∷ m) = ap (◌+ℤ◌ e.market_count) (count-named m)

  count-insert :
      (x : EventExposure W) (es : List (EventExposure W))
      → count_markets (insert_event om x es) ≡ x.market_count +ℤ count_markets es
  unfolding insert_event
  count-insert x [] = refl
  count-insert x (y ∷ ys) = elim (Bool-cases (d.lt x.notional_cost_cents y.notional_cost_cents)) [
    | inl deeper ↦
        let ih = count-insert x ys in rw deeper (omega (int_laws, ap pos_part ih, ap neg_part ih))
    | inr here ↦ rw here
  ]

  count-sorted :
      (es : List (EventExposure W)) → count_markets (sort_events om es) ≡ count_markets es
  unfolding sort_events
  count-sorted [] = refl
  count-sorted (x ∷ xs) =
      count-insert x (sort_events om xs) ∙ ap (◌+ℤ◌ x.market_count) (count-sorted xs)

  count-add :
      (event : String) (r u n : W) (m : Dict (EventExposure W))
      → count_entries (add_exposure om event r u n m) ≡ count_entries m +ℤ pos 1
  unfolding add_exposure
  count-add event r u n m =
      let blank : EventExposure W = record {
        event_ticker = "";
        realized_pnl_cents = d.of_int (pos 0);
        unrealized_pnl_cents = d.of_int (pos 0);
        notional_cost_cents = d.of_int (pos 0);
        market_count = pos 0;
      } in
      let old = get_or event blank m in
      let new : EventExposure W = record old {
        realized_pnl_cents = d.add old.realized_pnl_cents r;
        unrealized_pnl_cents = d.add old.unrealized_pnl_cents u;
        notional_cost_cents = d.add old.notional_cost_cents n;
        market_count = old.market_count +ℤ pos 1;
      } in
      let replaced = count-replaced event new blank m refl in
      omega (int_laws, ap pos_part replaced, ap neg_part replaced)

  count-loop :
      (s : S) (marks : Dict ℤ) (ts : List String) (snap : PortfolioSnapshot W)
      (events : Dict (EventExposure W))
      → count_entries (snapshot_loop om s marks ts snap events).1
        ≡ count_entries events +ℤ pos (length ts)
  unfolding snapshot_loop
  count-loop s marks [] snap events = sym (+ℤ_zero (count_entries events))
  count-loop s marks (t ∷ ts) snap events =
      let u = unrealized_at om s marks t in
      let grown =
        add_exposure om (event_ticker_of t) (om.realized_pnl s t) u (om.position_cost s t) events in
      let ih = λ (snap' : PortfolioSnapshot W). count-loop s marks ts snap' grown in
      let added =
        count-add (event_ticker_of t) (om.realized_pnl s t) u (om.position_cost s t) events in
      stepped _ _ (count_entries events) (length ts) (ih _) added
    where
      stepped : (a b c : ℤ) (n : ℕ) → a ≡ b +ℤ pos n → b ≡ c +ℤ pos 1 → a ≡ c +ℤ pos (suc n)
      stepped a b c n p q =
          omega (int_laws, ap pos_part p, ap neg_part p, ap pos_part q, ap neg_part q)

  -- The market counts of the events of a snapshot sum to the number of tickers.
  pub snapshot_counts :
      (s : S) (tickers : List String) (marks : Dict ℤ)
      → count_markets (snapshot om s tickers marks).by_event ≡ pos (length tickers)
  unfolding snapshot
  snapshot_counts s tickers marks =
      let start : PortfolioSnapshot W = record {
        total_realized_cents = d.of_int (pos 0);
        total_unrealized_cents = d.of_int (pos 0);
        total_notional_cents = d.of_int (pos 0);
        by_event = [];
      } in
      let events = (snapshot_loop om s marks tickers start []).1 in
      count-sorted (named_events om events)
      ∙ (count-named events
          ∙ (count-loop s marks tickers start [] ∙ zero_+ℤ (pos (length tickers))))
