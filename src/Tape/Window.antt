-- ===== src/Tape/Window.antt =====
-- The counts of source/engine/trade_tape.cpp, old prints and our own fills among them.
use kalshi_market_maker.Prelude.{
  ℤ, pos, ◌+ℤ◌, ◌-ℤ◌, ◌≤ℤ◌, true, false, ◌&&◌, not, inl, inr, String, List, [], ◌∷◌, ◌++◌,
  Option-cases, ◌≡◌, ◌≢◌, refl, ap, ◌∙◌, arith, if◌then◌else◌, lookup, get_or, get_or-insert,
  str_eq, str_eq_iff, str_eq_refl, contains,
}
use kalshi_market_maker.Types.{PublicTrade}
use kalshi_market_maker.Flow.{seconds}
use kalshi_market_maker.Flow.Window.{window_moves}
use kalshi_market_maker.Tape.{
  TradeTapeConfig, TradeTape, drop_old, record_own_fill, record_trade, is_in_window, is_countable,
  count_prints, print_count,
}

module _ {W : Type 0} (config : TradeTapeConfig W) where
  count-drop_old :
      (tape : TradeTape) (early now : ℤ) (ps : List PublicTrade) (n : ℤ)
      → early ≤ℤ now -ℤ seconds config.window_seconds
      → count_prints config tape now (drop_old early ps) n ≡ count_prints config tape now ps n
  unfolding count_prints drop_old is_countable is_in_window
  count-drop_old tape early now [] n h = refl
  count-drop_old tape early now (p ∷ ps) n h =
      ground (arith, h, count-drop_old tape early now ps n h)

  count-append :
      (tape : TradeTape) (now : ℤ) (ps : List PublicTrade) (p : PublicTrade) (n : ℤ)
      → count_prints config tape now (ps ++ p ∷ []) n ≡ (
          if is_countable config tape p now
          then count_prints config tape now ps n +ℤ pos 1
          else count_prints config tape now ps n)
  unfolding count_prints
  count-append tape now [] p n = refl
  count-append tape now (x ∷ ps) p n =
      count-append tape now ps p (if is_countable config tape x now then n +ℤ pos 1 else n)

  count_of_prints :
      (tape : TradeTape) (t : String) (now : ℤ)
      → print_count config tape t now
        ≡ count_prints config tape now (get_or t [] tape.prints_by_ticker) (pos 0)
  unfolding print_count get_or count_prints
  count_of_prints tape t now = elim (Option-cases (lookup t tape.prints_by_ticker)) [
    | inl e ↦ rw (e, print_count, get_or) refl
    | inr (es, e) ↦ rw (e, print_count, get_or) refl
  ]

  -- Counting reads nothing of the tape but the ids of our own fills.
  count-own_ids :
      (tape other : TradeTape) (now : ℤ) (ps : List PublicTrade) (n : ℤ)
      → tape.own_trade_ids ≡ other.own_trade_ids
      → count_prints config tape now ps n ≡ count_prints config other now ps n
  unfolding count_prints is_countable
  count-own_ids tape other now [] n h = refl
  count-own_ids tape other now (p ∷ ps) n h =
      count-own_ids tape other now ps (if is_countable config tape p now then n +ℤ pos 1 else n) h
      ∙ ap
          (λ ids.
            count_prints config other now ps (
              if is_in_window config p now && not (contains p.trade_id ids) then n +ℤ pos 1 else n))
          h

  prints_after :
      (tape : TradeTape) (trade : PublicTrade) (u : String) (now : ℤ)
      → print_count config (record_trade config trade tape) u now ≡ (
          if str_eq trade.market_ticker u
          then count_prints config tape now
              (drop_old
                (trade.timestamp -ℤ seconds config.window_seconds)
                (get_or trade.market_ticker [] tape.prints_by_ticker ++ trade ∷ []))
              (pos 0)
          else count_prints config tape now (get_or u [] tape.prints_by_ticker) (pos 0))
  unfolding record_trade
  prints_after tape trade u now =
      let after = record_trade config trade tape in
      let kept =
        drop_old (trade.timestamp -ℤ seconds config.window_seconds)
          (get_or trade.market_ticker [] tape.prints_by_ticker ++ trade ∷ []) in
      count_of_prints after u now
      ∙ count-own_ids after tape now (get_or u [] after.prints_by_ticker) (pos 0) refl
      ∙ ap (λ ps. count_prints config tape now ps (pos 0))
          (get_or-insert trade.market_ticker u kept [] tape.prints_by_ticker)
      ∙ ground arith

  -- A print no later than now adds one to the count of its own market when it is countable at
  -- now and changes no other count, although old prints are dropped.
  pub record_trade-print_count :
      (tape : TradeTape) (trade : PublicTrade) (u : String) (now : ℤ)
      → trade.timestamp ≤ℤ now
      → print_count config (record_trade config trade tape) u now ≡ (
          if str_eq trade.market_ticker u && is_countable config tape trade now
          then print_count config tape u now +ℤ pos 1
          else print_count config tape u now)
  record_trade-print_count tape trade u now h =
      let prints = get_or trade.market_ticker [] tape.prints_by_ticker in
      ground (
        arith,
        str_eq_iff trade.market_ticker u,
        prints_after tape trade u now,
        count_of_prints tape u now,
        count-drop_old tape (trade.timestamp -ℤ seconds config.window_seconds) now
            (prints ++ trade ∷ []) (pos 0)
            (window_moves trade.timestamp now (seconds config.window_seconds) h),
        count-append tape now prints trade (pos 0),
      )

  own_id_listed :
      (tape : TradeTape) (id : String)
      → id ≢ ""
      → contains id (record_own_fill id tape).own_trade_ids ≡ true
  unfolding record_own_fill contains
  own_id_listed tape id named = ground (arith, str_eq_iff id "", named, str_eq_refl id)

  orders_agree :
      (tape : TradeTape) (trade : PublicTrade) (id : String)
      → record_own_fill id (record_trade config trade tape)
        ≡ record_trade config trade (record_own_fill id tape)
  unfolding record_own_fill record_trade
  orders_agree tape trade id = ground arith

  own_not_countable :
      (tape : TradeTape) (trade : PublicTrade) (now : ℤ)
      → trade.trade_id ≢ ""
      → is_countable config (record_own_fill trade.trade_id tape) trade now ≡ false
  unfolding is_countable
  own_not_countable tape trade now named = ground (arith, own_id_listed tape trade.trade_id named)

  -- A print with the id of one of our fills is not counted, in either order of arrival, where
  -- the id is not empty and the print is no later than now.
  pub own_fill_uncounted :
      (tape : TradeTape) (trade : PublicTrade) (u : String) (now : ℤ)
      → trade.timestamp ≤ℤ now
      → trade.trade_id ≢ ""
      → (print_count config (record_trade config trade (record_own_fill trade.trade_id tape)) u now
          ≡ print_count config (record_own_fill trade.trade_id tape) u now)
        × (print_count config
              (record_own_fill trade.trade_id (record_trade config trade tape))
              u
              now
            ≡ print_count config (record_own_fill trade.trade_id tape) u now)
  own_fill_uncounted tape trade u now h named =
      let first : print_count config
            (record_trade config trade (record_own_fill trade.trade_id tape)) u now
          ≡ print_count config (record_own_fill trade.trade_id tape) u now =
        ground (
          arith,
          own_not_countable tape trade now named,
          record_trade-print_count (record_own_fill trade.trade_id tape) trade u now h,
        ) in
      (first, ap (λ t. print_count config t u now) (orders_agree tape trade trade.trade_id) ∙ first)
