-- ===== src/Socket/Messages.antt =====
-- The event handlers of source/net/websocket_client.cpp. All four message callbacks are set, as
-- source/app/main.cpp does; a callback's own exceptions are contained by the dispatchers.
use Prim.Native.Nat.{suc}
use kalshi_market_maker.Prelude.{
  ℤ, pos, ◌+ℤ◌, eqb_ℤ, Bool, true, false, String, List, [], ◌∷◌, ◌++◌, Option, none, some,
  if◌then◌else◌, str_eq, contains, done, threw, Action,
}
use kalshi_market_maker.Float.{Double}
use kalshi_market_maker.Socket.{
  JsonReader, subscribe_market, subscribe_fills, Callback, snapshot_arrived, went_down, came_back,
  WebSocketClient,
}
use kalshi_market_maker.Socket.Bodies.{and_then, parse_snapshot, read_delta, read_fill, read_trade}

-- The numbers of a message; without both of them it is not checked.
unfoldable pub sequence_numbers : {J : Type 0} → JsonReader J → J → Option (ℤ × ℤ)
sequence_numbers json parsed =
    and_then (and_then (json.find "sid" parsed) json.integer)
      (λ sid. and_then (and_then (json.find "seq" parsed) json.integer) (λ seq. some (sid, seq)))

-- `last_seq_by_sid_[sid] = seq`
abbrev pub with_seq : ℤ → ℤ → (ℤ → Option ℤ) → ℤ → Option ℤ
with_seq sid seq last s = if eqb_ℤ sid s then some seq else last s

module _ {W : Type 0} where
  unfoldable pub send_subscribe : String → WebSocketClient W → WebSocketClient W
  send_subscribe ticker c = record c {
    sent = subscribe_market c.next_msg_id ticker ∷ c.sent;
    next_msg_id = c.next_msg_id +ℤ pos 1;
  }

  unfoldable pub send_subscribe_fills : WebSocketClient W → WebSocketClient W
  send_subscribe_fills c = record c {
    sent = subscribe_fills c.next_msg_id ∷ c.sent;
    next_msg_id = c.next_msg_id +ℤ pos 1;
  }

  unfoldable pub subscribe : String → WebSocketClient W → WebSocketClient W
  unfolding contains send_subscribe
  subscribe ticker c =
      let added = record c { subscribed_tickers = c.subscribed_tickers ++ ticker ∷ [] } in
      if contains ticker c.subscribed_tickers
      then c
      else if c.connected
      then send_subscribe ticker added
      else added

  unfoldable pub send_all : List String → WebSocketClient W → WebSocketClient W
  unfolding send_subscribe
  send_all [] c = c
  send_all (t ∷ ts) c = send_all ts (send_subscribe t c)

  unfoldable pub handle_connect : WebSocketClient W → WebSocketClient W
  unfolding send_subscribe_fills send_all
  handle_connect c =
      let fresh = record c { consecutive_connect_failures = pos 0; last_seq_by_sid = λ _. none } in
      let asked = record (send_subscribe_fills fresh) { connected = true } in
      let all = send_all c.subscribed_tickers asked in
      record all {
        made = if c.has_connected_once then came_back ∷ all.made else all.made;
        has_connected_once = true;
      }

  unfoldable pub handle_disconnect : WebSocketClient W → WebSocketClient W
  handle_disconnect c = record c { connected = false; made = went_down ∷ c.made }

  unfoldable pub handle_heartbeat : ℤ → WebSocketClient W → WebSocketClient W
  handle_heartbeat now c = record c { last_message_time = now }

  unfoldable pub stop : WebSocketClient W → WebSocketClient W
  stop c = record c { running = false }

  unfoldable pub sequence_intact : ℤ → ℤ → WebSocketClient W → Bool × WebSocketClient W
  sequence_intact sid seq c =
      let heard = record c { last_seq_by_sid = with_seq sid seq c.last_seq_by_sid } in
      let gap = record c { last_seq_by_sid = λ _. none; close_requests = suc c.close_requests } in
      elim (c.last_seq_by_sid sid) [
        | none ↦ (true, heard)
        | some last ↦ (if eqb_ℤ seq (last +ℤ pos 1) then (true, heard) else (false, gap))
      ]

  -- A dispatcher: a body it cannot read is dropped.
  abbrev pub deliver : Option (Callback W) → WebSocketClient W → WebSocketClient W
  deliver none c = c
  deliver (some callback) c = record c { made = callback ∷ c.made }

  module _ {J : Type 0} ⦃d : Double W⦄ (json : JsonReader J) (stod : String → Option W) where
    -- The body of a message, by its type.
    unfoldable pub read_body : String → J → Option (Callback W)
    unfolding parse_snapshot read_delta read_fill read_trade
    read_body msg_type body =
        if str_eq msg_type "orderbook_snapshot"
        then and_then (parse_snapshot json stod body) (λ book. some (snapshot_arrived book))
        else if str_eq msg_type "orderbook_delta"
        then read_delta json stod body
        else if str_eq msg_type "fill"
        then read_fill json stod body
        else if str_eq msg_type "trade"
        then read_trade json stod body
        else none

    -- The sequence check.
    unfoldable pub check_sequence : J → WebSocketClient W → Bool × WebSocketClient W
    unfolding sequence_intact sequence_numbers
    check_sequence parsed c = elim (sequence_numbers json parsed) [
      | none ↦ (true, c)
      | some (sid, seq) ↦ sequence_intact sid seq c
    ]

    -- From a message with a type and a body on.
    unfoldable pub handle_typed : String → J → J → WebSocketClient W → WebSocketClient W
    unfolding check_sequence read_body
    handle_typed msg_type parsed body c =
        let (intact, checked) = check_sequence parsed c in
        if str_eq msg_type "subscribed"
        then c
        else if intact
        then deliver (read_body msg_type body) checked
        else checked

    unfoldable pub handle_parsed : J → Action (WebSocketClient W) (Unit {0})
    unfolding handle_typed
    handle_parsed parsed c = elim (json.find "type" parsed) [
      | none ↦ (done tt, c)
      | some type_of ↦ elim (json.text type_of) [
        | none ↦ (threw, c)
        | some msg_type ↦ (
          done tt,
          (if str_eq msg_type "error" then c else elim (json.find "msg" parsed) [
            | none ↦ c
            | some body ↦ handle_typed msg_type parsed body c
          ]),
        )
      ]
    ]

    unfoldable pub handle_message : ℤ → String → Action (WebSocketClient W) (Unit {0})
    unfolding handle_parsed
    handle_message now raw c =
        let heard = record c { last_message_time = now } in
        elim (json.parse raw) [ none ↦ (done tt, heard) | some parsed ↦ handle_parsed parsed heard ]
