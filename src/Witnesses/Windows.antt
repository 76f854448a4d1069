-- ===== src/Witnesses/Windows.antt =====
-- The theorems of the flow guard and of the trade tape at concrete inputs.
use kalshi_market_maker.Prelude.{pos, ◌+ℤ◌, [], ◌-ℤ◌, ◌≡◌, ◌≢◌, arith, if◌then◌else◌, str_eq_iff}
use kalshi_market_maker.Float.Exact.{whole}
use kalshi_market_maker.Quantity.{from_centi}
use kalshi_market_maker.Types.{buys_yes}
use kalshi_market_maker.Flow.{FlowImbalanceConfig, Entry, windowed_volume}
use kalshi_market_maker.Flow
use kalshi_market_maker.Flow.Window.{record_fill-volume, with_entry}
use kalshi_market_maker.Tape.{record_own_fill, record_trade, is_countable, print_count}
use kalshi_market_maker.Tape.Window.{record_trade-print_count, own_fill_uncounted}
use kalshi_market_maker.Witnesses.{guard, tape_config, print_of, empty_tape}

record_fill-volume_example :
    windowed_volume guard
      (Flow.record_fill guard "KXA-B-1" buys_yes (from_centi (pos 300)) (pos 5_000_000_000) [])
      "KXA-B-1"
      (pos 9_000_000_000)
    ≡ with_entry
        (pos 9_000_000_000 -ℤ Flow.seconds (pos 60))
        (record { when = pos 5_000_000_000; side = buys_yes; quantity = from_centi (pos 300) })
        (windowed_volume guard [] "KXA-B-1" (pos 9_000_000_000))
record_fill-volume_example =
    record_fill-volume guard [] "KXA-B-1" "KXA-B-1" buys_yes (from_centi (pos 300))
      (pos 5_000_000_000) (pos 9_000_000_000) (ground arith)

record_trade-print_count_example :
    print_count tape_config
      (record_trade tape_config (print_of "t7") empty_tape)
      "KXA-B-1"
      (pos 9_000_000_000)
    ≡ (if is_countable tape_config empty_tape (print_of "t7") (pos 9_000_000_000)
        then print_count tape_config empty_tape "KXA-B-1" (pos 9_000_000_000) +ℤ pos 1
        else print_count tape_config empty_tape "KXA-B-1" (pos 9_000_000_000))
record_trade-print_count_example =
    record_trade-print_count tape_config empty_tape (print_of "t7") "KXA-B-1" (pos 9_000_000_000)
      (ground arith)

no_named : (print_of "t7").trade_id ≢ ""
no_named e = ground (arith, (str_eq_iff "t7" "").1 e)

own_fill_uncounted_example :
    (print_count tape_config
        (record_trade tape_config (print_of "t7") (record_own_fill "t7" empty_tape))
        "KXA-B-1"
        (pos 9_000_000_000)
      ≡ print_count tape_config (record_own_fill "t7" empty_tape) "KXA-B-1" (pos 9_000_000_000))
    × (print_count tape_config
          (record_own_fill "t7" (record_trade tape_config (print_of "t7") empty_tape))
          "KXA-B-1"
          (pos 9_000_000_000)
        ≡ print_count tape_config (record_own_fill "t7" empty_tape) "KXA-B-1" (pos 9_000_000_000))
own_fill_uncounted_example =
    own_fill_uncounted tape_config empty_tape (print_of "t7") "KXA-B-1" (pos 9_000_000_000)
      (ground arith) no_named
