-- ===== src/Witnesses/Runs.antt =====
-- Runs of a session: two markets, a quoter, and an exchange that confirms every cancellation and
-- counts what it is asked to place.
use kalshi_market_maker.Prelude.{
  ℕ, suc, ℤ, pos, ◌+ℤ◌, Bool, true, false, ◌&&◌, String, [], ◌∷◌, none, some, Outcome, threw, done,
  panicked, not, inl, ◌≡◌, ◌≢◌, refl, arith, if◌then◌else◌, lookup, get_or, has_key, contains, All,
}
use kalshi_market_maker.Float.Exact.{whole}
use kalshi_market_maker.Quantity.{from_centi}
use kalshi_market_maker.Types.{buys_yes, buys_no, Fill}
use kalshi_market_maker.Orders.{Manager, new_manager, fill_key}
use kalshi_market_maker.Orders.Fills
use kalshi_market_maker.Orders.Fills.{Recorded, record_fill-Recorded, refused, duplicate}
use kalshi_market_maker.Orders.Remote
use kalshi_market_maker.Orders.Remote.{RestClient, Live, cancel_quietly}
use kalshi_market_maker.Orders.Implements.{order_manager}
use kalshi_market_maker.Orders.Clearing.{ClearsMarkets, order_manager-ClearsMarkets}
use kalshi_market_maker.Iface.{OrderManagerIface, StrategyIface}
use kalshi_market_maker.Pricing.{clearing_price_model}
use kalshi_market_maker.Risk.{halt, is_halted}
use kalshi_market_maker.Quoter.Update
use kalshi_market_maker.Quoter.Kept.{IsUncrossed}
use kalshi_market_maker.Session.{World, TradingSession, is_tracked, cools_down}
use kalshi_market_maker.Session.Feed.{on_delta, record_delta}
use kalshi_market_maker.Session.Trades.{on_fill, carried_totals}
use kalshi_market_maker.Session.Safety.{remove_market_if_idle, enforce_quote_safety}
use kalshi_market_maker.Session.Quoting.{Quoting, quoting, quoter_of}
use kalshi_market_maker.Session.Events.{
  Event, Reach, handle, fill_received, here, next, delta_received, portfolio_checked, idle_checked,
}
use kalshi_market_maker.Session.Contained.{NeverThrows}
use kalshi_market_maker.Session.Kept.{for_each-Keeps}
use kalshi_market_maker.Session.Composed.{Reach-halted, Reach-IsUncrossed}
use kalshi_market_maker.Session.Coherent.{IsCoherent, Reach-IsCoherent}
use kalshi_market_maker.Session.Uncaught.{handle_contains}
use kalshi_market_maker.Session.Replayed.{on_fill_replayed}
use kalshi_market_maker.Session.Panicked.{bad_fill_flattens}
use kalshi_market_maker.Session.Carried.{is_carried, carried, lookup-carried_totals}
use kalshi_market_maker.Session.Cooling.{on_delta-cools}
use kalshi_market_maker.Session.Rotation.{Rotated, remove_market_if_idle-Rotated}
use kalshi_market_maker.Session.Emptied.{IsCleared, ForgetsOnly, enforce_quote_safety_clears}
use kalshi_market_maker.Session.Nets.{IsDeadCleared, IsSafe, enforce_quote_safety_nets}
use kalshi_market_maker.Session.Frame.{Reach-configured}
use kalshi_market_maker.Witnesses.{
  order_of, fresh_risk, guard, tape_config, empty_tape, quoter_config, fill,
}

abbrev counting : RestClient ℕ
counting = record {
  place_order = λ ticker side price size n. (done (order_of "o9" ticker), suc n);
  cancel_order = λ id n. (done true, n);
  amend_order = λ id ticker side price size n. (done none, suc n);
}

abbrev manager : OrderManagerIface ℤ (Live ℤ ℕ)
manager = order_manager counting

abbrev books : Live ℤ ℕ
books = record {
  manager = record new_manager {
    open_orders = ("o1", order_of "o1" "KXA-B-1") ∷ ("o2", order_of "o2" "KXA-B-2") ∷ [];
  };
  exchange = 0;
}

abbrev world : World ℤ (Quoting ℤ) (Live ℤ ℕ)
world = record {
  strategy_state = record {
    fv_ema = [];
    own_quotes = [];
    reduce_only = false;
    readings = λ n. (pos n, pos n);
    updates = 0;
  };
  orders = books;
  risk = fresh_risk;
  flow_guard = some (guard, []);
  trade_tape = some (tape_config, empty_tape);
}

abbrev session : TradingSession ℤ (Quoting ℤ) (Live ℤ ℕ)
session = record {
  world = world;
  tickers = "KXA-B-1" ∷ "KXA-B-2" ∷ [];
  error_cooldown = pos 500_000_000;
  cooldown_until = [];
  last_book_update = [];
  seeded_at = ("KXA-B-1", pos 0) ∷ [];
  feed_dead = [];
  ob_map = [];
  prior_pnl = ("KXA-B-2", pos 250) ∷ [];
  has_listener = true;
  saved = [];
}

abbrev strategy : StrategyIface (World ℤ (Quoting ℤ) (Live ℤ ℕ))
strategy = quoting quoter_config (clearing_price_model (pos 1)) manager (pos 75)

abbrev halted_session : TradingSession ℤ (Quoting ℤ) (Live ℤ ℕ)
halted_session = record session { world = record world { risk = halt fresh_risk } }

abbrev late : String → ℤ
late t = pos 40_000_000_000

abbrev delta : Event ℤ
delta = delta_received "KXA-B-1" buys_yes (pos 44) (from_centi (pos 300)) (pos 1, pos 1, pos 1)

abbrev bought : Fill ℤ
bought = fill "t1" buys_yes (pos 44) (pos 100)

abbrev idle : Event ℤ
idle = idle_checked (λ t. (pos 2, pos 2, pos 2))

abbrev IsUnplaced : Live ℤ ℕ → Type 0
IsUnplaced x = x.exchange ≡ 0

cancel-IsUnplaced : (id : String) (x : Live ℤ ℕ) → IsUnplaced x → IsUnplaced (manager.cancel id x).1
unfolding Remote.cancel
cancel-IsUnplaced id x h = h

cancel_quietly-IsUnplaced :
    (id : String) (x : Live ℤ ℕ) → IsUnplaced x → IsUnplaced (cancel_quietly counting id x).1
unfolding cancel_quietly Remote.cancel
cancel_quietly-IsUnplaced id x h = h

cancel_all-IsUnplaced :
    (ticker : String) (x : Live ℤ ℕ) → IsUnplaced x → IsUnplaced (manager.cancel_all ticker x).1
unfolding Remote.cancel_all
cancel_all-IsUnplaced ticker x h =
    for_each-Keeps IsUnplaced _ (cancel_quietly counting) cancel_quietly-IsUnplaced x h

-- The risk check, a delta, a poll of the idle markets.
abbrev after_poll :
    TradingSession ℤ (Quoting ℤ) (Live ℤ ℕ) → TradingSession ℤ (Quoting ℤ) (Live ℤ ℕ)
after_poll s =
    let checked = (handle manager strategy portfolio_checked s).1 in
    let heard = (handle manager strategy delta checked).1 in (handle manager strategy idle heard).1

polled : (s : TradingSession ℤ (Quoting ℤ) (Live ℤ ℕ)) → Reach manager strategy s (after_poll s)
polled s = next idle (next delta (next portfolio_checked here))

Reach-halted_example :
    (is_halted (after_poll halted_session).world.risk ≡ true)
    × ((after_poll halted_session).world.orders.exchange ≡ 0)
unfolding is_halted halt
Reach-halted_example =
    Reach-halted quoter_config (clearing_price_model (pos 1)) manager (pos 75) IsUnplaced
      cancel-IsUnplaced cancel_all-IsUnplaced (λ f x h. h) (polled halted_session) refl refl

no_quotes : IsUncrossed (quoter_of world)
unfolding get_or lookup
no_quotes t = refl

Reach-IsUncrossed_example : IsUncrossed (quoter_of (after_poll session).world)
Reach-IsUncrossed_example =
    Reach-IsUncrossed quoter_config (clearing_price_model (pos 1)) manager (pos 75) (polled session)
      no_quotes

clearing : ClearsMarkets manager
clearing = order_manager-ClearsMarkets counting (λ id n. refl)

order_manager-ClearsMarkets_example : ClearsMarkets manager
order_manager-ClearsMarkets_example = order_manager-ClearsMarkets counting (λ id n. refl)

forgetful : ForgetsOnly strategy
unfolding quoting Update.reset_quotes
forgetful = record {
  forget_returns = λ t w. refl;
  forgetting = λ t w. refl;
  reset_returns = λ w. refl;
  resetting = λ w. refl;
}

calm : NeverThrows strategy
unfolding quoting
calm = record {
  forgets_order = λ t id w e. cc e;
  forgets_ticker = λ t w e. cc e;
  resets = λ w e. cc e;
}

enforce_quote_safety_clears_example :
    let r = enforce_quote_safety manager strategy late halted_session in
    (r.0 ≡ done tt) × All (λ t. IsCleared manager t r.1) halted_session.tickers
unfolding is_halted halt
enforce_quote_safety_clears_example =
    enforce_quote_safety_clears manager strategy clearing forgetful late halted_session refl

enforce_quote_safety_nets_example :
    let r = enforce_quote_safety manager strategy late session in
    (r.0 ≡ done tt) × (IsDeadCleared manager r.1 × All (IsSafe manager late r.1) session.tickers)
unfolding is_halted
enforce_quote_safety_nets_example =
    enforce_quote_safety_nets manager strategy clearing forgetful late session refl
      (λ t h. unfold contains in ground (arith, h))

session-IsCoherent : IsCoherent session
unfolding contains lookup has_key
session-IsCoherent = record {
  dead_silent = λ t h. refl;
  timed_booked = λ t h. ground (arith, h);
  distinct = (refl, (refl, tt));
}

Reach-IsCoherent_example : IsCoherent (after_poll session)
Reach-IsCoherent_example = Reach-IsCoherent manager strategy (polled session) session-IsCoherent

Reach-configured_example :
    ((after_poll session).prior_pnl ≡ session.prior_pnl)
    × ((after_poll session).has_listener ≡ session.has_listener)
    × ((after_poll session).error_cooldown ≡ session.error_cooldown)
Reach-configured_example = Reach-configured manager strategy session (polled session)

recording : (f : Fill ℤ) (x : Live ℤ ℕ) → (manager.record_fill f x).0 ≢ threw
recording f x e = recorded (record_fill-Recorded f x.manager) e
  where
    recorded : {r : Outcome Bool × Manager ℤ} → Recorded f x.manager r → r.0 ≢ threw
    recorded (refused bad) h = cc h
    recorded (duplicate old) h = cc h
    recorded (Fills.recorded valid fresh) h = cc h

handle_contains_example : (handle manager strategy delta session).0 ≢ threw
handle_contains_example = handle_contains manager strategy recording calm delta session

on_fill_replayed_example :
    let first = on_fill manager strategy bought session in
    (first.0
      ≡ done (
          is_tracked session "KXA-B-1"
          && not (contains (fill_key bought) session.world.orders.manager.seen_fills)))
    × (on_fill manager strategy bought first.1 ≡ (done false, first.1))
on_fill_replayed_example =
    on_fill_replayed quoter_config (clearing_price_model (pos 1)) counting (pos 75) bought session
      (refl, refl)

-- A price of 0.
abbrev free : Fill ℤ
free = fill "t9" buys_yes (pos 0) (pos 100)

bad_fill_flattens_example :
    let r = handle manager strategy (fill_received free) session in
    (r.0 ≡ panicked) × All (λ t. IsCleared manager t r.1) session.tickers
unfolding is_tracked contains
bad_fill_flattens_example =
    bad_fill_flattens free counting strategy (λ id n. refl) forgetful session refl (inl refl)

lookup-carried_totals_example : lookup "KXA-B-2" (carried_totals manager session) ≡ (
    if contains "KXA-B-2" session.tickers
      && is_carried manager session.world.orders session.prior_pnl "KXA-B-2" session.prior_pnl
    then some (carried manager session.world.orders session.prior_pnl "KXA-B-2")
    else lookup "KXA-B-2" session.prior_pnl)
lookup-carried_totals_example = lookup-carried_totals manager session "KXA-B-2"

-- A strategy that always throws.
abbrev failing_strategy : StrategyIface (World ℤ (Quoting ℤ) (Live ℤ ℕ))
failing_strategy = record {
  update = λ ticker book w. (threw, w);
  forget_order = λ ticker id w. (threw, w);
  forget_ticker = λ ticker w. (threw, w);
  reset_quotes = λ w. (threw, w);
  set_reduce_only = λ b w. (threw, w);
}

on_delta-cools_example :
    let size = from_centi (pos 300) in
    let first =
      on_delta failing_strategy "KXA-B-1" buys_yes (pos 44) size (pos 1, pos 2, pos 3) session in
    (first.0 ≡ done tt)
    × (on_delta failing_strategy "KXA-B-1" buys_no (pos 50) size (pos 9, pos 10, pos 11) first.1
        ≡ (done tt, record_delta "KXA-B-1" buys_no (pos 50) size (pos 9) first.1))
unfolding is_tracked contains cools_down lookup ◌+ℤ◌
on_delta-cools_example =
    on_delta-cools failing_strategy "KXA-B-1" session buys_yes (pos 44) (from_centi (pos 300))
      (pos 1) (pos 2) (pos 3) buys_no (pos 50) (from_centi (pos 300)) (pos 9) (pos 10) (pos 11) refl
      refl refl refl

remove_market_if_idle-Rotated_example :
    Rotated manager "KXA-B-1" session (remove_market_if_idle manager "KXA-B-1" session)
remove_market_if_idle-Rotated_example = remove_market_if_idle-Rotated manager "KXA-B-1" session
