-- ===== src/Portfolio.antt =====
-- source/engine/portfolio.cpp: the read-model over the order manager, and the reconciliation of
-- local positions with the exchange's.
pub mod Reconciling
pub mod Totals
use Prim.Native.String.{compare}
use text.Mathlib.Text.{is_lt}
use Prim.Native.Char.{Char, code}
use kalshi_market_maker.Prelude.{
  ℕ, ◌==◌, ℤ, pos, ◌+ℤ◌, Bool, true, false, not, ◌&&◌, ◌||◌, String, List, [], ◌∷◌, ◌++◌, Option,
  none, some, if◌then◌else◌, Dict, lookup, insert, get_or, has_key, contains, str_eq,
}
use kalshi_market_maker.Float.{Double}
use kalshi_market_maker.Quantity
use kalshi_market_maker.Quantity.{Quantity, zero_quantity}
use kalshi_market_maker.Types.{MarketPosition}
use kalshi_market_maker.Iface.{OrderManagerIface}

pub record EventExposure (W : Type 0) : Type 0 where
  pub event_ticker : String
  pub realized_pnl_cents : W
  pub unrealized_pnl_cents : W
  pub notional_cost_cents : W
  pub market_count : ℤ

pub record PortfolioSnapshot (W : Type 0) : Type 0 where
  pub total_realized_cents : W
  pub total_unrealized_cents : W
  pub total_notional_cents : W
  pub by_event : List (EventExposure W)

pub record PositionDiff : Type 0 where
  pub ticker : String
  pub local_position : Quantity
  pub exchange_position : Quantity
  pub baseline_position : Quantity

pub record Reconciliation : Type 0 where
  pub in_sync : Bool
  pub diffs : List PositionDiff

-- The text before the last hyphen, `none` where there is no hyphen (`rfind`, then `substr`).
before_last_hyphen : String → Option String
before_last_hyphen String.[] = none
before_last_hyphen (String.◌∷◌ c s) = elim (before_last_hyphen s) [
  | some before ↦ some (String.◌∷◌ c before)
  | none ↦ if code c == b'-' then some String.[] else none
]

unfoldable pub event_ticker_of : String → String
unfolding before_last_hyphen
event_ticker_of market = elim (before_last_hyphen market) [ none ↦ market | some event ↦ event ]

-- `m[position.ticker] = position.position` for each position.
unfoldable pub positions_by_ticker : List MarketPosition → Dict Quantity → Dict Quantity
positions_by_ticker [] m = m
positions_by_ticker (p ∷ ps) m = positions_by_ticker ps (insert p.ticker p.position m)

-- The same for the baseline: flat positions and traded tickers are left out.
unfoldable pub baseline_by_ticker :
    List String → List MarketPosition → Dict Quantity → Dict Quantity
baseline_by_ticker traded [] m = m
baseline_by_ticker traded (p ∷ ps) m = baseline_by_ticker traded ps (
    if not (Quantity.is_zero p.position) && not (contains p.ticker traded)
    then insert p.ticker p.position m
    else m)

-- Inserting into `std::unordered_set`.
abbrev pub add_once : String → List String → List String
add_once t s = if contains t s then s else t ∷ s

unfoldable pub add_tickers : List String → List String → List String
add_tickers [] s = s
add_tickers (t ∷ ts) s = add_tickers ts (add_once t s)

unfoldable pub add_nonzero : List MarketPosition → List String → List String
add_nonzero [] s = s
add_nonzero (p ∷ ps) s =
    add_nonzero ps (if Quantity.is_zero p.position then s else add_once p.ticker s)

unfoldable pub add_keys : Dict Quantity → List String → List String
add_keys [] s = s
add_keys ((t, _) ∷ m) s = add_keys m (add_once t s)

-- `std::string::operator<`
abbrev pub str_lt : String → String → Bool
str_lt a b = is_lt (compare a b)

-- `std::sort` by ticker.
insert_diff : PositionDiff → List PositionDiff → List PositionDiff
insert_diff x [] = x ∷ []
insert_diff x (y ∷ ys) = if str_lt y.ticker x.ticker then y ∷ insert_diff x ys else x ∷ y ∷ ys

sort_diffs : List PositionDiff → List PositionDiff
unfolding insert_diff
sort_diffs [] = []
sort_diffs (x ∷ xs) = insert_diff x (sort_diffs xs)

-- The tickers that `reconcile` checks.
unfoldable pub to_check : List String → List MarketPosition → Dict Quantity → List String
to_check tickers exchange baseline =
    add_keys baseline (add_nonzero exchange (add_tickers tickers []))

-- One ticker's entry, and whether its position is explained.
abbrev pub position_diff :
    (String → Quantity) → Dict Quantity → Dict Quantity → String → PositionDiff
position_diff local exchange baseline ticker = record {
  ticker = ticker;
  local_position = local ticker;
  exchange_position = get_or ticker zero_quantity exchange;
  baseline_position = get_or ticker zero_quantity baseline;
}

abbrev pub explained : PositionDiff → Bool
explained x = Quantity.eq (Quantity.add x.local_position x.baseline_position) x.exchange_position

-- The loop over the tickers to check.
unfoldable pub collect_diffs : (String → PositionDiff) → List String → List PositionDiff
collect_diffs entry [] = []
collect_diffs entry (t ∷ ts) =
    if explained (entry t) then collect_diffs entry ts else entry t ∷ collect_diffs entry ts

abbrev pub is_empty : List PositionDiff → Bool
is_empty [] = true
is_empty (_ ∷ _) = false

unfoldable pub reconcile_positions :
    (String → Quantity) → List String → List MarketPosition → List MarketPosition → Reconciliation
unfolding sort_diffs
reconcile_positions local tickers exchange_positions baseline_positions =
    let exchange = positions_by_ticker exchange_positions [] in
    let baseline = baseline_by_ticker tickers baseline_positions [] in
    let diffs = sort_diffs (
      collect_diffs (position_diff local exchange baseline)
        (to_check tickers exchange_positions baseline)) in
    record { in_sync = is_empty diffs; diffs = diffs }

module _ {W S : Type 0} ⦃d : Double W⦄ (om : OrderManagerIface W S) where
  unfoldable pub reconcile :
      S → List String → List MarketPosition → List MarketPosition → Reconciliation
  unfolding reconcile_positions
  reconcile s = reconcile_positions (om.net_position s)

  abbrev nought : W
  nought = d.of_int (pos 0)

  -- `events[event_ticker_of(ticker)]` with the shares of one market added.
  unfoldable pub add_exposure : String → W → W → W → Dict (EventExposure W) → Dict (EventExposure W)
  add_exposure event realized unrealized notional events =
      let old =
        get_or event
          (record {
            event_ticker = "";
            realized_pnl_cents = nought;
            unrealized_pnl_cents = nought;
            notional_cost_cents = nought;
            market_count = pos 0;
          })
          events in
      insert event
        (record old {
          realized_pnl_cents = d.add old.realized_pnl_cents realized;
          unrealized_pnl_cents = d.add old.unrealized_pnl_cents unrealized;
          notional_cost_cents = d.add old.notional_cost_cents notional;
          market_count = old.market_count +ℤ pos 1;
        })
        events

  abbrev pub unrealized_at : S → Dict ℤ → String → W
  unrealized_at s marks ticker = elim (lookup ticker marks) [
    | none ↦ nought
    | some mark ↦ om.unrealized_pnl s ticker mark
  ]

  -- The loop of `snapshot`: the totals so far and the events so far.
  unfoldable pub snapshot_loop :
      S
      → Dict ℤ
      → List String
      → PortfolioSnapshot W
      → Dict (EventExposure W)
      → PortfolioSnapshot W × Dict (EventExposure W)
  unfolding add_exposure event_ticker_of
  snapshot_loop s marks [] snap events = (snap, events)
  snapshot_loop s marks (t ∷ ts) snap events =
      let realized = om.realized_pnl s t in
      let notional = om.position_cost s t in
      let unrealized = unrealized_at s marks t in
      snapshot_loop s marks ts
        (record snap {
          total_realized_cents = d.add snap.total_realized_cents realized;
          total_unrealized_cents = d.add snap.total_unrealized_cents unrealized;
          total_notional_cents = d.add snap.total_notional_cents notional;
        })
        (add_exposure (event_ticker_of t) realized unrealized notional events)

  named_events : Dict (EventExposure W) → List (EventExposure W)
  named_events [] = []
  named_events ((k, e) ∷ m) = record e { event_ticker = k } ∷ named_events m

  -- `std::sort` by descending notional cost.
  insert_event : EventExposure W → List (EventExposure W) → List (EventExposure W)
  insert_event x [] = x ∷ []
  insert_event x (y ∷ ys) =
      if d.lt x.notional_cost_cents y.notional_cost_cents then y ∷ insert_event x ys else x ∷ y ∷ ys

  sort_events : List (EventExposure W) → List (EventExposure W)
  unfolding insert_event
  sort_events [] = []
  sort_events (x ∷ xs) = insert_event x (sort_events xs)

  unfoldable pub snapshot : S → List String → Dict ℤ → PortfolioSnapshot W
  unfolding snapshot_loop named_events sort_events
  snapshot s tickers marks =
      let (snap, events) =
        snapshot_loop s marks tickers
          (record {
            total_realized_cents = nought;
            total_unrealized_cents = nought;
            total_notional_cents = nought;
            by_event = [];
          })
          [] in
      record snap { by_event = sort_events (named_events events) }

-- `PortfolioSnapshot::total_pnl_cents`
abbrev pub total_pnl_cents : {W : Type 0} ⦃d : Double W⦄ → PortfolioSnapshot W → W
total_pnl_cents ⦃d⦄ snap = d.add snap.total_realized_cents snap.total_unrealized_cents
