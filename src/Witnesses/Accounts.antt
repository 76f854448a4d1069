-- ===== src/Witnesses/Accounts.antt =====
-- The theorems of cancelling, of reconciling and of the portfolio at concrete inputs.
use kalshi_market_maker.Prelude.{
  pos, true, false, String, List, [], ◌∷◌, ◌≡◌, ◌↔◌, refl, arith, lookup, contains, AllEntries,
  done,
}
use kalshi_market_maker.Float.Exact.{whole}
use kalshi_market_maker.Quantity.{Quantity, from_centi}
use kalshi_market_maker.Types.{MarketPosition}
use kalshi_market_maker.Orders.Remote.{ids_of, cancel_all}
use kalshi_market_maker.Orders.Cancelling.{ElsewhereOrder, cancel_all_returns, cancel_all_clears}
use kalshi_market_maker.Portfolio.{reconcile_positions, snapshot}
use kalshi_market_maker.Portfolio.Totals.{count_markets, snapshot_counts}
use kalshi_market_maker.Portfolio.Reconciling.{reconcile_iff, IsChecked, Agrees}
use kalshi_market_maker.Witnesses.{accepting, live, manager_iface}

cancel_all_returns_example :
    ((cancel_all accepting "KXA-B-1" live).0 ≡ done tt)
    × ((j : String)
        → contains j (ids_of "KXA-B-1" live.manager.open_orders) ≡ false
        → lookup j (cancel_all accepting "KXA-B-1" live).1.manager.open_orders
          ≡ lookup j live.manager.open_orders)
cancel_all_returns_example =
    cancel_all_returns accepting "KXA-B-1" live (λ id r e. ground (arith, e))

cancel_all_clears_example :
    AllEntries
      (ElsewhereOrder "KXA-B-1")
      (cancel_all accepting "KXA-B-1" live).1.manager.open_orders
cancel_all_clears_example = cancel_all_clears accepting "KXA-B-1" live (λ id r. refl)

abbrev local_account : String → Quantity
local_account t = from_centi (pos 300)

abbrev exchange_account : List MarketPosition
exchange_account = record { ticker = "KXA-B-1"; position = from_centi (pos 300) } ∷ []

abbrev baseline_account : List MarketPosition
baseline_account = record { ticker = "KXA-B-2"; position = from_centi (pos 100) } ∷ []

reconcile_iff_example :
    ((reconcile_positions local_account ("KXA-B-1" ∷ []) exchange_account baseline_account).in_sync
      ≡ true)
    ↔ ((t : String)
        → IsChecked local_account ("KXA-B-1" ∷ []) exchange_account baseline_account t
        → Agrees local_account ("KXA-B-1" ∷ []) exchange_account baseline_account t)
reconcile_iff_example =
    reconcile_iff local_account ("KXA-B-1" ∷ []) exchange_account baseline_account

snapshot_counts_example :
    count_markets (snapshot manager_iface live ("KXA-B-1" ∷ "KXA-B-2" ∷ []) []).by_event ≡ pos 2
snapshot_counts_example = snapshot_counts manager_iface live ("KXA-B-1" ∷ "KXA-B-2" ∷ []) []
