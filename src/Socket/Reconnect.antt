-- ===== src/Socket/Reconnect.antt =====
-- Reconnecting in source/net/websocket_client.cpp: the delay, and what `run` decides after each attempt
-- to connect. Delays are in milliseconds.
use kalshi_market_maker.Prelude.{
  ℕ, zero, suc, ℤ, pos, negsuc, ◌+ℤ◌, ◌-ℤ◌, ◌*ℤ◌, leb_ℤ, min_ℤ, false, not, ◌&&◌, Option, none,
  some, if◌then◌else◌,
}
use kalshi_market_maker.Socket.{WebSocketClient}

-- `kMaxReconnectDelay`
abbrev pub max_reconnect_delay : ℤ
max_reconnect_delay = pos 60_000

-- The loop of `reconnect_backoff`.
unfoldable pub double_delay : ℕ → ℤ → ℤ
double_delay zero delay = delay
double_delay (suc n) delay =
    let rest = double_delay n (delay *ℤ pos 2) in
    if leb_ℤ max_reconnect_delay (delay *ℤ pos 2) then max_reconnect_delay else rest

-- A negative count makes no round.
abbrev pub rounds : ℤ → ℕ
rounds (pos n) = n
rounds (negsuc n) = 0

unfoldable pub reconnect_backoff : ℤ → ℤ → ℤ
unfolding double_delay
reconnect_backoff base_delay consecutive_failures =
    double_delay (rounds (min_ℤ (consecutive_failures -ℤ pos 1) (pos 30)))
      (min_ℤ base_delay max_reconnect_delay)

module _ {W : Type 0} where
  unfoldable pub next_reconnect_delay : WebSocketClient W → ℤ
  unfolding reconnect_backoff
  next_reconnect_delay c =
      reconnect_backoff c.reconnect_delay (c.consecutive_connect_failures +ℤ pos 1)

  -- What follows an attempt: the delay before the next one, `none` where the loop ends.
  unfoldable pub after_attempt : ℤ → WebSocketClient W → Option ℤ × (ℤ × WebSocketClient W)
  unfolding reconnect_backoff
  after_attempt reconnect_attempts c =
      let failed = record c {
        consecutive_connect_failures = c.consecutive_connect_failures +ℤ pos 1;
      } in
      if not c.running
      then (none, (reconnect_attempts, record c { running = false }))
      else if leb_ℤ (pos 0) c.max_reconnects && leb_ℤ c.max_reconnects reconnect_attempts
      then (none, (reconnect_attempts, record c { running = false }))
      else (
        some (reconnect_backoff c.reconnect_delay failed.consecutive_connect_failures),
        (reconnect_attempts +ℤ pos 1, failed),
      )
