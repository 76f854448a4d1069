-- ===== src/Witnesses/Fills.antt =====
-- The theorems of the order manager's fills at concrete inputs: three fills in two markets.
use kalshi_market_maker.Prelude.{
  ℤ, pos, ◌+ℤ◌, List, [], ◌∷◌, ◌-ℤ◌, ◌≡◌, refl, arith, inl, lookup, get_or,
}
use kalshi_market_maker.Float.Exact.{whole}
use kalshi_market_maker.Quantity.{from_centi}
use kalshi_market_maker.Types.{buys_yes}
use kalshi_market_maker.Orders.{Lot, new_manager, record_fill, match_lots}
use kalshi_market_maker.Orders.Loop.{IsSettled, match_lots-IsSettled}
use kalshi_market_maker.Orders.Inventory.{IsBalancedManager, position_of}
use kalshi_market_maker.Orders.Fills.{Recorded, record_fill-Recorded}
use kalshi_market_maker.Orders.History.{
  run_fills, fresh_volume, run_fills-position, run_fills-IsBalanced,
}
use kalshi_market_maker.Orders.Reads.{
  net_position, position_cost, exposure_decomposition, exposure_agrees,
}
use kalshi_market_maker.Witnesses.{fill, three_fills}

run_fills-position_example :
    position_of (run_fills three_fills new_manager) "KXA-B-1"
    ≡ position_of (new_manager {W = ℤ}) "KXA-B-1" +ℤ fresh_volume [] "KXA-B-1" three_fills
run_fills-position_example =
    run_fills-position three_fills new_manager "KXA-B-1"
      ((refl, refl), ((refl, refl), ((refl, refl), tt)))

no_lots_balanced : IsBalancedManager (new_manager {W = ℤ})
unfolding get_or lookup ◌-ℤ◌
no_lots_balanced t = record { yes_open = tt; no_open = tt; one_sided = inl refl; balanced = refl }

run_fills-IsBalanced_example : IsBalancedManager (run_fills three_fills new_manager)
run_fills-IsBalanced_example = run_fills-IsBalanced three_fills new_manager no_lots_balanced

record_fill-Recorded_example :
    Recorded
      (fill "t1" buys_yes (pos 40) (pos 300))
      new_manager
      (record_fill (fill "t1" buys_yes (pos 40) (pos 300)) new_manager)
record_fill-Recorded_example =
    record_fill-Recorded (fill "t1" buys_yes (pos 40) (pos 300)) new_manager

abbrev two_lots : List Lot
two_lots =
    (record { price_cents = pos 50; remaining = from_centi (pos 200) })
    ∷ (record { price_cents = pos 52; remaining = from_centi (pos 400) })
    ∷ []

match_lots-IsSettled_example :
    IsSettled {W = ℤ}
      (from_centi (pos 300))
      two_lots
      (match_lots 3 "KXA-B-1" (pos 45) (from_centi (pos 300)) two_lots [])
match_lots-IsSettled_example =
    match_lots-IsSettled {W = ℤ} "KXA-B-1" (pos 45) 3 (from_centi (pos 300)) two_lots []
      (ground arith) (ground arith) (ground arith)

exposure_agrees_example :
    let m = run_fills three_fills new_manager in
    let e = exposure_decomposition m "KXA-B-1" in
    (e.net_inventory.centi ≡ (net_position m "KXA-B-1").centi)
    × (e.e_loss_cents ≡ whole.negate (position_cost m "KXA-B-1"))
exposure_agrees_example =
    exposure_agrees (run_fills three_fills new_manager) "KXA-B-1" run_fills-IsBalanced_example
