-- ===== src/Socket/Bodies.antt =====
-- The message bodies of source/net/websocket_client.cpp: the helpers, and the parts of the dispatchers
-- that read a body. `none` is an exception, which the dispatchers contain.
use kalshi_market_maker.Prelude.{
  ℤ, pos, ◌*ℤ◌, String, List, [], ◌∷◌, Option, none, some, if◌then◌else◌, str_eq,
}
use kalshi_market_maker.Float.{Double}
use kalshi_market_maker.Quantity.{Quantity, from_centi}
use kalshi_market_maker.Types.{Side, buys_yes, buys_no, Level, Orderbook, complement_price}
use kalshi_market_maker.Socket.{JsonReader, Callback, delta_arrived, fill_arrived, trade_arrived}

abbrev pub and_then : {A B : Type 0} → Option A → (A → Option B) → Option B
and_then none k = none
and_then (some a) k = k a

unfoldable pub parse_side : String → Option Side
parse_side side_str =
    if str_eq side_str "yes"
    then some buys_yes
    else if str_eq side_str "no"
    then some buys_no
    else none

-- `system_clock::time_point(milliseconds(ts_ms))`
abbrev pub of_milliseconds : ℤ → ℤ
of_milliseconds ts_ms = ts_ms *ℤ pos 1_000_000

module _ {J : Type 0} (json : JsonReader J) where
  -- `at(key)`, and `at(key).get<std::string>()`
  abbrev pub text_at : String → J → Option String
  text_at key j = and_then (json.find key j) json.text

  -- `value(key, std::string{fallback})`
  abbrev pub text_or : String → String → J → Option String
  text_or key fallback j = elim (json.find key j) [
    | none ↦ some fallback
    | some found ↦ json.text found
  ]

  -- `value(key, kEmptyArray)`
  abbrev pub items_or_none : String → J → List J
  items_or_none key j = elim (json.find key j) [ none ↦ [] | some found ↦ json.items found ]

  module _ {W : Type 0} ⦃d : Double W⦄ (stod : String → Option W) where
    unfoldable pub dollars_to_cents : String → Option ℤ
    dollars_to_cents dollars_str =
        and_then (stod dollars_str) (λ x. some (d.round_int (d.mul x (d.of_int (pos 100)))))

    -- `Quantity::from_fp_string`
    unfoldable pub parse_fp_count : String → Option Quantity
    parse_fp_count fp_str =
        and_then (stod fp_str) (λ x. some (from_centi (d.round_int (d.mul x (d.of_int (pos 100))))))

    unfoldable pub parse_snapshot_level : J → Option Level
    unfolding dollars_to_cents parse_fp_count
    parse_snapshot_level level =
        and_then (and_then (and_then (json.item 0 level) json.text) dollars_to_cents) (λ price.
          and_then (and_then (and_then (json.item 1 level) json.text) parse_fp_count)
            (λ count. some (record { price_cents = price; quantity = count })))

    unfoldable pub parse_levels : List J → Option (List Level)
    unfolding parse_snapshot_level
    parse_levels [] = some []
    parse_levels (j ∷ js) =
        let rest = parse_levels js in
        and_then (parse_snapshot_level j) (λ level. and_then rest (λ levels. some (level ∷ levels)))

    unfoldable pub parse_snapshot : J → Option Orderbook
    unfolding parse_levels
    parse_snapshot msg = and_then (text_at "market_ticker" msg) (λ ticker.
        and_then (parse_levels (items_or_none "yes_dollars_fp" msg)) (λ yes.
          and_then (parse_levels (items_or_none "no_dollars_fp" msg))
            (λ no. some (record { ticker = ticker; yes_levels = yes; no_levels = no }))))

    unfoldable pub read_delta : J → Option (Callback W)
    unfolding parse_side dollars_to_cents parse_fp_count
    read_delta msg = and_then (text_at "market_ticker" msg) (λ ticker.
        and_then (and_then (text_at "side" msg) parse_side) (λ side.
          and_then (and_then (text_at "price_dollars" msg) dollars_to_cents) (λ price.
            and_then (and_then (text_at "delta_fp" msg) parse_fp_count)
              (λ qty. some (delta_arrived ticker side price qty)))))

    unfoldable pub read_fill : J → Option (Callback W)
    unfolding parse_side dollars_to_cents parse_fp_count
    read_fill msg = and_then (text_or "trade_id" "" msg) (λ trade_id.
        and_then (text_at "order_id" msg) (λ order_id.
          and_then (text_at "market_ticker" msg) (λ ticker.
            and_then (and_then (text_at "outcome_side" msg) parse_side) (λ side.
              and_then (and_then (text_at "yes_price_dollars" msg) dollars_to_cents) (λ yes_price.
                and_then (and_then (text_at "count_fp" msg) parse_fp_count) (λ quantity.
                  and_then (and_then (text_or "fee_cost" "0" msg) stod) (λ fee.
                    and_then (and_then (json.find "is_taker" msg) json.boolean) (λ is_taker.
                      and_then (and_then (json.find "ts_ms" msg) json.long_long) (λ ts_ms. some (
                        fill_arrived (record {
                          trade_id = trade_id;
                          order_id = order_id;
                          market_ticker = ticker;
                          side = side;
                          price_cents = elim side [
                            | buys_yes ↦ yes_price
                            | buys_no ↦ complement_price yes_price
                          ];
                          quantity = quantity;
                          fee_cents = d.mul fee (d.of_int (pos 100));
                          is_taker = is_taker;
                          timestamp = of_milliseconds ts_ms;
                        })))))))))))

    unfoldable pub read_trade : J → Option (Callback W)
    unfolding parse_side dollars_to_cents parse_fp_count
    read_trade msg = and_then (text_at "trade_id" msg) (λ trade_id.
        and_then (text_at "market_ticker" msg) (λ ticker.
          and_then (and_then (text_at "yes_price_dollars" msg) dollars_to_cents) (λ yes_price.
            and_then (and_then (text_at "count_fp" msg) parse_fp_count) (λ quantity.
              and_then (and_then (text_at "taker_outcome_side" msg) parse_side) (λ side.
                and_then (and_then (json.find "ts_ms" msg) json.long_long) (λ ts_ms. some (
                  trade_arrived (record {
                    trade_id = trade_id;
                    market_ticker = ticker;
                    yes_price_cents = yes_price;
                    quantity = quantity;
                    taker_side = side;
                    timestamp = of_milliseconds ts_ms;
                  }))))))))
