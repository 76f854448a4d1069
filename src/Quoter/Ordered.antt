-- ===== src/Quoter/Ordered.antt =====
-- The order of the prices that `update` of source/strategy/quoter.cpp computes.
use kalshi_market_maker.Prelude.{
  ℤ, pos, ◌<ℤ◌, ◌≤ℤ◌, true, String, some, ◌≡◌, arith, +ℤ_parts, -ℤ_parts,
}
use kalshi_market_maker.Float.{Double}
use kalshi_market_maker.Float.Laws.{RoundsOutward}
use kalshi_market_maker.Quoter.{
  compute_quotes, passive_bid, passive_ask, lmsr_skewed_fair_value, clamp_ℤ,
}
use kalshi_market_maker.Quoter.Wanted.{
  Tools, with_longshot_edge, with_unwind_edge, raw_quotes, half_spread_for, lean,
}

clamped : (a b : ℤ) → a <ℤ b → clamp_ℤ a (pos 1) (pos 98) <ℤ clamp_ℤ b (pos 2) (pos 99)
clamped a b h = ground (arith, h)

passive_below : (raw market p : ℤ) → passive_bid raw market ≡ some p → (p <ℤ market) × (p ≤ℤ raw)
unfolding passive_bid
passive_below raw market p e = ground (arith, e, -ℤ_parts market (pos 1))

passive_above : (raw market p : ℤ) → passive_ask raw market ≡ some p → (market <ℤ p) × (raw ≤ℤ p)
unfolding passive_ask
passive_above raw market p e = ground (arith, e, +ℤ_parts market (pos 1))

module _ {W S : Type 0} ⦃d : Double W⦄ (tools : Tools W S) (ticker : String) (wall_now : ℤ) where
  longshot_ordered :
      (bid ask : ℤ)
      → pos 0 ≤ℤ tools.config.longshot_edge_cents
      → bid <ℤ ask
      → pos 1 ≤ℤ bid
      → ask ≤ℤ pos 99
      → let q = with_longshot_edge tools ticker wall_now (bid, ask) in q.0 <ℤ q.1
  unfolding with_longshot_edge
  longshot_ordered bid ask e h l u = ground (
    arith,
    e,
    h,
    l,
    u,
    -ℤ_parts bid tools.config.longshot_edge_cents,
    +ℤ_parts ask tools.config.longshot_edge_cents,
  )

  unwind_ordered :
      (inventory reservation : W) (bid ask : ℤ)
      → bid <ℤ ask
      → let q = with_unwind_edge tools ticker wall_now inventory reservation (bid, ask) in
        q.0 <ℤ q.1
  unfolding with_unwind_edge
  unwind_ordered inventory reservation bid ask h =
      ground (arith, h, +ℤ_parts bid (pos 1), -ℤ_parts ask (pos 1))

  -- If floor(x) is below ceil(y) whenever x is below y, the long-shot edge is not negative,
  -- and the reservation price less the half-spread is below the price plus it, then the bid
  -- that update computes is below its ask.
  pub raw_quotes_ordered :
      (fair_val inventory : W)
      → RoundsOutward d
      → pos 0 ≤ℤ tools.config.longshot_edge_cents
      → let reservation =
          lmsr_skewed_fair_value
            (lean tools ticker wall_now fair_val)
            inventory
            tools.inventory_b_contracts in
        let half_spread = d.of_int (half_spread_for tools ticker wall_now fair_val) in
        d.lt (d.sub reservation half_spread) (d.add reservation half_spread) ≡ true
        → let raw = raw_quotes tools ticker wall_now fair_val inventory in raw.0 <ℤ raw.1
  unfolding raw_quotes compute_quotes
  raw_quotes_ordered fair_val inventory rounds edge apart =
      let reservation =
        lmsr_skewed_fair_value (lean tools ticker wall_now fair_val) inventory
          tools.inventory_b_contracts in
      let half_spread = d.of_int (half_spread_for tools ticker wall_now fair_val) in
      let bid = d.floor_int (d.sub reservation half_spread) in
      let ask = d.ceil_int (d.add reservation half_spread) in
      let apart_ints = clamped bid ask (rounds.floor-lt-ceil _ _ apart) in
      let edged =
        with_longshot_edge tools ticker wall_now
          (compute_quotes reservation (half_spread_for tools ticker wall_now fair_val)) in
      unwind_ordered inventory reservation edged.0 edged.1 (
        longshot_ordered (clamp_ℤ bid (pos 1) (pos 98)) (clamp_ℤ ask (pos 2) (pos 99)) edge
          apart_ints (ground arith) (ground arith))

-- Where the computed bid is below the computed ask, and both passive prices exist, the passive
-- bid is below the market ask, the passive ask above the market bid, and the bid below the
-- ask.
pub passive_quotes_ordered :
    (raw_bid raw_ask market_bid market_ask bid ask : ℤ)
    → raw_bid <ℤ raw_ask
    → passive_bid raw_bid market_ask ≡ some bid
    → passive_ask raw_ask market_bid ≡ some ask
    → (bid <ℤ market_ask) × ((market_bid <ℤ ask) × (bid <ℤ ask))
passive_quotes_ordered raw_bid raw_ask market_bid market_ask bid ask h b a =
    let below = passive_below raw_bid market_ask bid b in
    let above = passive_above raw_ask market_bid ask a in
    (below.0, (above.0, omega (arith, below.1, above.1, h)))
