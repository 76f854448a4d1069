-- ===== src/Socket.antt =====
-- source/net/websocket_client.cpp: `WebSocketClient`, what it keeps, and the libraries it reads
-- messages with, as parameters.
pub mod Bodies
pub mod Messages
pub mod Reconnect
pub mod InOrder
pub mod Gapless
pub mod Escapes
use kalshi_market_maker.Prelude.{ℕ, ℤ, pos, Bool, false, String, List, [], Option, none}
use kalshi_market_maker.Quantity.{Quantity}
use kalshi_market_maker.Types.{Side, Fill, PublicTrade, Orderbook}

-- nlohmann::json: `none` where it throws or the iterator is `end()`. `long_long` is `get<long long>`,
-- `integer` the value if `is_number_integer()`.
pub record JsonReader (J : Type 0) : Type 0 where
  pub parse : String → Option J
  pub find : String → J → Option J
  pub text : J → Option String
  pub integer : J → Option ℤ
  pub long_long : J → Option ℤ
  pub boolean : J → Option Bool
  pub items : J → List J
  pub item : ℕ → J → Option J

-- What the client sends, and the callbacks it makes.
pub data Request : Type 0 where
  subscribe_market : ℤ → String → Request
  subscribe_fills : ℤ → Request

pub data Callback (W : Type 0) : Type 0 where
  snapshot_arrived : Orderbook → Callback W
  delta_arrived : String → Side → ℤ → Quantity → Callback W
  fill_arrived : Fill W → Callback W
  trade_arrived : PublicTrade → Callback W
  went_down : Callback W
  came_back : Callback W

-- The fields of `WebSocketClient`; `last_seq_by_sid` as a function, `none` for a missing key. `sent`,
-- `made` and `close_requests` record what was asked of the transport and of the callbacks, last first.
pub record WebSocketClient (W : Type 0) : Type 0 where
  pub max_reconnects : ℤ
  pub reconnect_delay : ℤ
  pub running : Bool
  pub next_msg_id : ℤ
  pub consecutive_connect_failures : ℤ
  pub has_connected_once : Bool
  pub connected : Bool
  pub subscribed_tickers : List String
  pub last_seq_by_sid : ℤ → Option ℤ
  pub last_message_time : ℤ
  pub sent : List Request
  pub made : List (Callback W)
  pub close_requests : ℕ

unfoldable pub new_client : {W : Type 0} → ℤ → ℤ → ℤ → WebSocketClient W
new_client max_reconnects reconnect_delay now = record {
  max_reconnects = max_reconnects;
  reconnect_delay = reconnect_delay;
  running = false;
  next_msg_id = pos 1;
  consecutive_connect_failures = pos 0;
  has_connected_once = false;
  connected = false;
  subscribed_tickers = [];
  last_seq_by_sid = λ _. none;
  last_message_time = now;
  sent = [];
  made = [];
  close_requests = 0;
}
