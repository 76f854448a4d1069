-- ===== src/Witnesses/Scans.antt =====
-- The scanner on three markets, and a feed of short messages.
use kalshi_market_maker.Prelude.{
  lookup, ℤ, pos, ◌+ℤ◌, ◌-ℤ◌, ◌*ℤ◌, ◌≤ℤ◌, true, String, List, [], ◌∷◌, length, Option, none, some,
  if◌then◌else◌, str_eq, done, threw, ◌≡◌, ◌↔◌, refl, arith, All,
}
use kalshi_market_maker.Float.Exact.{whole}
use kalshi_market_maker.Book.{apply_snapshot, best_bid, best_ask}
use kalshi_market_maker.Quoter.{half}
use kalshi_market_maker.Scanner.{ScannerConfig, Market, MarketScore, MarketData}
use kalshi_market_maker.Scanner.Dates.{Date, date_key, event_date, is_past_event}
use kalshi_market_maker.Scanner.Past.{IsDated, IsBefore, is_past_event_iff}
use kalshi_market_maker.Scanner.Ranking.{utc_date_key}
use kalshi_market_maker.Scanner.Scan.{fetch_markets, scan}
use kalshi_market_maker.Scanner.Sound.{IsChosenFrom}
use kalshi_market_maker.Scanner.Chosen.{scan-IsChosen}
use kalshi_market_maker.Socket.{JsonReader, WebSocketClient, new_client}
use kalshi_market_maker.Socket.Messages.{handle_message}
use kalshi_market_maker.Socket.InOrder.{IsRun, seqs_of}
use kalshi_market_maker.Socket.Gapless.{listen-IsRun}
use kalshi_market_maker.Socket.Escapes.{is_mistyped, handle_message_throws}
use kalshi_market_maker.Witnesses.{quotes}

abbrev today : Date
today = record { year = 2026; month = 3; day = 1 }

today-IsDated : IsDated today
today-IsDated = record {
  first_month = ground arith;
  last_month = ground arith;
  first_day = ground arith;
  last_day = ground arith;
}

is_past_event_iff_example :
    (is_past_event "KXA-26JAN05-X" (pos (date_key today)) ≡ true)
    ↔ ((date : Date) × (event_date "KXA-26JAN05-X" ≡ some date) × IsBefore date today)
is_past_event_iff_example = is_past_event_iff "KXA-26JAN05-X" today today-IsDated

abbrev config : ScannerConfig ℤ
config = record {
  min_price_cents = pos 15;
  max_price_cents = pos 85;
  min_spread_cents = pos 1;
  max_spread_cents = pos 10;
  min_volume_24h = pos 100;
  min_days_to_close = pos 1;
  max_days_to_close = pos 90;
  incentive_weight = pos 1;
  trade_top_n = pos 5;
  max_stale_trade_minutes = pos 0;
  rotation_minutes = pos 5;
  min_trades_per_hour = pos 0;
  min_trade_price_range_cents = pos 0;
  tape_range_lookback_minutes = pos 180;
  min_minority_flow_ratio = pos 0;
  min_reversion_kappa = pos 0;
  reversion_window_minutes = pos 180;
  event_series = [];
}

abbrev market : String → String → ℤ → Market ℤ
market ticker status ask = record {
  ticker = ticker;
  title = "";
  category = "";
  status = status;
  fee_rate_bps = pos 0;
  yes_bid_cents = pos 40;
  yes_ask_cents = ask;
  volume_24h = pos 500;
  close_time = pos 864_000_000_000_000;
}

-- One to trade, one closed, one with too wide a spread.
abbrev listed : List (Market ℤ)
listed =
    market "KXA-B" "active" (pos 45)
    ∷ market "KXA-C" "closed" (pos 45)
    ∷ market "KXA-D" "active" (pos 60)
    ∷ []

abbrev data_source : MarketData ℤ (Unit {0})
data_source = record {
  get_markets = λ series r. (done listed, r);
  get_incentive_programs = λ r. (done [], r);
  get_recent_trades = λ ticker limit r. (done none, r);
  get_candlesticks = λ ticker start end r. (done none, r);
  get_orderbook = λ ticker r. (done quotes, r);
}

abbrev calendar : ℤ → Date
calendar now = today

abbrev chosen : List (MarketScore ℤ)
chosen =
    record {
      ticker = "KXA-B";
      title = "";
      category = "";
      mid_price_cents = pos 42;
      spread_cents = pos 5;
      volume_24h = pos 500;
      days_to_close = pos 10;
      incentive_reward_dollars = pos 0;
      score = pos 0;
    }
    ∷ []

scan-IsChosen_example :
    (markets : List (Market ℤ)) × ((fetch_markets data_source config.event_series tt).0
      ≡ done markets)
    × (pos (length chosen) ≤ℤ pos 2)
    × All (IsChosenFrom config (utc_date_key calendar (pos 0)) (pos 0) markets) chosen
unfolding scan ◌+ℤ◌ ◌-ℤ◌ ◌*ℤ◌ best_bid best_ask apply_snapshot half lookup
scan-IsChosen_example = scan-IsChosen data_source config calendar (pos 2) (pos 0) tt chosen refl

-- Messages and their parts.
data Node : Type 0 where
  frame : String → ℤ → ℤ → Node
  mistyped : Node
  word : String → Node
  number : ℤ → Node

find_in : String → Node → Option Node
find_in key (frame type_of sid seq) =
    if str_eq key "type"
    then some (word type_of)
    else if str_eq key "sid"
    then some (number sid)
    else if str_eq key "seq"
    then some (number seq)
    else if str_eq key "msg"
    then some mistyped
    else none
find_in key mistyped = if str_eq key "type" then some (number (pos 7)) else none
find_in key (word text) = none
find_in key (number n) = none

parse_node : String → Option Node
parse_node raw =
    if str_eq raw "first"
    then some (frame "trade" (pos 3) (pos 10))
    else if str_eq raw "second"
    then some (frame "trade" (pos 3) (pos 11))
    else if str_eq raw "odd"
    then some mistyped
    else none

text_of : Node → Option String
text_of (frame type_of sid seq) = none
text_of mistyped = none
text_of (word text) = some text
text_of (number n) = none

number_of : Node → Option ℤ
number_of (frame type_of sid seq) = none
number_of mistyped = none
number_of (word text) = none
number_of (number n) = some n

abbrev json : JsonReader Node
json = record {
  parse = parse_node;
  find = find_in;
  text = text_of;
  integer = number_of;
  long_long = number_of;
  boolean = λ _. none;
  items = λ _. [];
  item = λ _ _. none;
}

abbrev no_numbers : String → Option ℤ
no_numbers _ = none

abbrev client : WebSocketClient ℤ
client = new_client (pos 3) (pos 100) (pos 0)

abbrev messages : List (ℤ × String)
messages = (pos 1, "first") ∷ (pos 2, "broken") ∷ (pos 3, "second") ∷ []

listen-IsRun_example : IsRun (client.last_seq_by_sid (pos 3)) (seqs_of json (pos 3) messages)
unfolding new_client handle_message parse_node find_in text_of number_of ◌+ℤ◌
listen-IsRun_example = listen-IsRun json no_numbers messages client refl (pos 3)

handle_message_throws_example :
    ((handle_message json no_numbers (pos 1) "odd" client).0 ≡ threw)
    ↔ (is_mistyped json "odd" ≡ true)
handle_message_throws_example = handle_message_throws json no_numbers (pos 1) "odd" client
