-- ===== src/Session.antt =====
-- source/engine/trading_session.cpp: `TradingSession`, its state and the small queries. The strategy
-- and the order manager are seen through their interfaces; a clock reading is an argument.
pub mod Feed
pub mod Trades
pub mod Safety
pub mod Reports
pub mod Rotation
pub mod Contained
pub mod Uncaught
pub mod Events
pub mod Kept
pub mod Preserved
pub mod Coherent
pub mod Answers
pub mod Marked
pub mod Replayed
pub mod Panicked
pub mod Carried
pub mod Cooling
pub mod Frame
pub mod Emptied
pub mod Nets
pub mod OnWorld
pub mod Quoting
pub mod Composed
use kalshi_market_maker.Prelude.{
  ℤ, pos, ◌-ℤ◌, ltb_ℤ, leb_ℤ, Bool, true, false, not, String, List, [], ◌∷◌, Option, none, some,
  Outcome, done, Action, pure, if◌then◌else◌, Dict, lookup, insert, has_key, get_or, contains,
  str_eq, ◌||◌, any,
}
use kalshi_market_maker.Types.{Orderbook, Order}
use kalshi_market_maker.Book.{empty_book}
use kalshi_market_maker.Flow.{FlowImbalanceConfig, Fills, seconds}
use kalshi_market_maker.Tape.{TradeTapeConfig, TradeTape}
use kalshi_market_maker.Iface.{OrderManagerIface, StrategyIface}
use kalshi_market_maker.Risk.{RiskManager}

-- What the session drives and shares with the strategy: `Q` is the strategy's own state, `X` the
-- state behind the order manager. `none` is a null pointer.
pub record World (W Q X : Type 0) : Type 0 where
  pub strategy_state : Q
  pub orders : X
  pub risk : RiskManager W
  pub flow_guard : Option (FlowImbalanceConfig W × Fills)
  pub trade_tape : Option (TradeTapeConfig W × TradeTape)

-- The fields of `TradingSession`. `saved` are the totals handed to the PnL listener, the last first.
pub record TradingSession (W Q X : Type 0) : Type 0 where
  pub world : World W Q X
  pub tickers : List String
  pub error_cooldown : ℤ
  pub cooldown_until : Dict ℤ
  pub last_book_update : Dict ℤ
  pub seeded_at : Dict ℤ
  pub feed_dead : List String
  pub ob_map : Dict Orderbook
  pub prior_pnl : Dict W
  pub has_listener : Bool
  pub saved : List (Dict W)

-- `unordered_set::erase` and `std::erase`.
unfoldable pub remove_all : String → List String → List String
remove_all k [] = []
remove_all k (j ∷ js) = if str_eq j k then remove_all k js else j ∷ remove_all k js

-- `unordered_set::insert`
abbrev pub add_member : String → List String → List String
add_member k s = if contains k s then s else k ∷ s

-- An order of the market among the open orders.
unfoldable pub rests_on : String → Dict Order → Bool
rests_on ticker [] = false
rests_on ticker ((id, order) ∷ orders) = str_eq order.market_ticker ticker || rests_on ticker orders

-- `ob_map_[ticker]`
abbrev pub book_of : String → Dict Orderbook → Orderbook
book_of ticker books = get_or ticker empty_book books

-- `kFeedConfirmGrace`
abbrev pub feed_confirm_grace : ℤ
feed_confirm_grace = seconds (pos 30)

module _ {W Q X : Type 0} where
  unfoldable pub is_tracked : TradingSession W Q X → String → Bool
  unfolding contains
  is_tracked s ticker = contains ticker s.tickers

  unfoldable pub feed_confirmed : TradingSession W Q X → String → ℤ → Bool
  feed_confirmed s ticker now =
      if has_key ticker s.last_book_update then true else elim (lookup ticker s.seeded_at) [
        | none ↦ true
        | some seeded ↦ leb_ℤ (now -ℤ seeded) feed_confirm_grace
      ]

  -- A market whose last placement failed is left alone until its cooldown is over.
  unfoldable pub cools_down : TradingSession W Q X → String → ℤ → Bool
  cools_down s ticker now = elim (lookup ticker s.cooldown_until) [
    | none ↦ false
    | some until ↦ ltb_ℤ now until
  ]

  -- A call of the order manager, and a change of the strategy's state, inside the session.
  abbrev pub on_orders : {A : Type 0} → Action X A → Action (TradingSession W Q X) A
  on_orders call s =
      let (r, x) = call s.world.orders in (r, record s { world = record (s.world) { orders = x } })

  abbrev pub on_world : {A : Type 0} → Action (World W Q X) A → Action (TradingSession W Q X) A
  on_world call s = let (r, w) = call s.world in (r, record s { world = w })

  abbrev pub change :
      (TradingSession W Q X → TradingSession W Q X) → Action (TradingSession W Q X) (Unit {0})
  change f s = (done tt, f s)

  -- `set_trade_tape`, `set_prior_pnl` and `set_pnl_listener`.
  unfoldable pub set_trade_tape :
      Option (TradeTapeConfig W × TradeTape) → TradingSession W Q X → TradingSession W Q X
  set_trade_tape tape s = record s { world = record (s.world) { trade_tape = tape } }

  unfoldable pub set_prior_pnl : Dict W → TradingSession W Q X → TradingSession W Q X
  set_prior_pnl prior_pnl s = record s { prior_pnl = prior_pnl }

  unfoldable pub set_pnl_listener : Bool → TradingSession W Q X → TradingSession W Q X
  set_pnl_listener listens s = record s { has_listener = listens }

  -- The constructor.
  unfoldable pub new_session : World W Q X → List String → ℤ → TradingSession W Q X
  new_session world tickers error_cooldown = record {
    world = record world { trade_tape = none };
    tickers = tickers;
    error_cooldown = error_cooldown;
    cooldown_until = [];
    last_book_update = [];
    seeded_at = [];
    feed_dead = [];
    ob_map = [];
    prior_pnl = [];
    has_listener = false;
    saved = [];
  }
