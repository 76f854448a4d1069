-- ===== src/Session/Coherent.antt =====
-- The feed bookkeeping of source/engine/trading_session.cpp: which markets are tracked, timed and dead.
use kalshi_market_maker.Prelude.{
  ℤ, true, false, not, String, List, [], ◌∷◌, ◌++◌, ◌≡◌, refl, arith, Dict, insert, erase, has_key,
  has_key-erase, has_key-insert, contains, contains-append, str_eq_iff, str_eq_comm, Bool-cases,
  inl, inr,
}
use kalshi_market_maker.Float.{Double}
use kalshi_market_maker.Quantity.{Quantity}
use kalshi_market_maker.Types.{Orderbook}
use kalshi_market_maker.Book.{apply_snapshot, apply_delta}
use kalshi_market_maker.Quantity
use kalshi_market_maker.Iface.{OrderManagerIface, StrategyIface}
use kalshi_market_maker.Session.{
  World, TradingSession, remove_all, add_member, is_tracked, feed_confirmed, rests_on, book_of,
}
use kalshi_market_maker.Session.Feed.{on_snapshot, record_delta, record_seed, adopt}
use kalshi_market_maker.Session.Safety.{remove_market_if_idle}
use kalshi_market_maker.Session.Rotation.{contains-remove_all}
use kalshi_market_maker.Session.Kept.{if-Keeps, IsKept}
use kalshi_market_maker.Session.Preserved.{Reach-Keeps}
use kalshi_market_maker.Session.Events.{Reach}

-- No ticker occurs twice.
abbrev pub IsDistinct : List String → Type 0
IsDistinct [] = Unit
IsDistinct (t ∷ ts) = (contains t ts ≡ false) × IsDistinct ts

remove_all-IsDistinct :
    (k : String) (ts : List String) → IsDistinct ts → IsDistinct (remove_all k ts)
unfolding remove_all
remove_all-IsDistinct k [] h = tt
remove_all-IsDistinct k (t ∷ ts) (h, hs) =
    ground (arith, remove_all-IsDistinct k ts hs, contains-remove_all t k ts)

append-IsDistinct :
    (k : String) (ts : List String)
    → contains k ts ≡ false
    → IsDistinct ts
    → IsDistinct (ts ++ k ∷ [])
unfolding contains
append-IsDistinct k [] h d = (refl, tt)
append-IsDistinct k (t ∷ ts) h (e, es) = (
  ground (arith, contains-append t ts (k ∷ []), str_eq_comm t k),
  append-IsDistinct k ts (ground arith) es,
)

module _ {W Q X : Type 0} where
  -- A market marked dead has had no book message since, one that has had a message has a book, and the
  -- tracked tickers do not repeat.
  pub record IsCoherent (s : TradingSession W Q X) : Type 0 where
    pub dead_silent :
        (t : String) → contains t s.feed_dead ≡ true → has_key t s.last_book_update ≡ false
    pub timed_booked :
        (t : String) → has_key t s.last_book_update ≡ true → has_key t s.ob_map ≡ true
    pub distinct : IsDistinct s.tickers

  heard-IsCoherent :
      (ticker : String) (now : ℤ) (book : Orderbook) (s : TradingSession W Q X)
      → IsCoherent s
      → IsCoherent (record s {
        ob_map = insert ticker book s.ob_map;
        last_book_update = insert ticker now s.last_book_update;
        feed_dead = remove_all ticker s.feed_dead;
      })
  heard-IsCoherent ticker now book s c = record {
    dead_silent = λ t. ground (
      arith,
      contains-remove_all t ticker s.feed_dead,
      has_key-insert ticker t now s.last_book_update,
      c.dead_silent t,
    );
    timed_booked = λ t. ground (
      arith,
      has_key-insert ticker t book s.ob_map,
      has_key-insert ticker t now s.last_book_update,
      c.timed_booked t,
    );
    distinct = c.distinct;
  }

  seeded-IsCoherent :
      (book : Orderbook) (now : ℤ) (s : TradingSession W Q X)
      → IsCoherent s
      → IsCoherent (record_seed book now s)
  unfolding record_seed
  seeded-IsCoherent book now s c = record {
    dead_silent =
        λ t. ground (arith, contains-remove_all t book.ticker s.feed_dead, c.dead_silent t);
    timed_booked = λ t.
        ground
          (arith, has_key-insert book.ticker t (apply_snapshot book) s.ob_map, c.timed_booked t);
    distinct = c.distinct;
  }

  adopt-IsCoherent :
      (ticker : String) (s : TradingSession W Q X) → IsCoherent s → IsCoherent (adopt ticker s)
  unfolding adopt is_tracked
  adopt-IsCoherent ticker s c = elim (Bool-cases (contains ticker s.tickers)) [
    | inl h ↦ rw h c
    | inr h ↦ rw h (record {
      dead_silent = c.dead_silent;
      timed_booked = c.timed_booked;
      distinct = append-IsDistinct ticker s.tickers h c.distinct;
    })
  ]

  dropped-IsCoherent :
      (ticker : String) (s : TradingSession W Q X)
      → IsCoherent s
      → IsCoherent (record s {
        tickers = remove_all ticker s.tickers;
        ob_map = erase ticker s.ob_map;
        last_book_update = erase ticker s.last_book_update;
      })
  dropped-IsCoherent ticker s c = record {
    dead_silent = λ t. ground (arith, has_key-erase ticker t s.last_book_update, c.dead_silent t);
    timed_booked = λ t. ground (
      arith,
      has_key-erase ticker t s.last_book_update,
      has_key-erase ticker t s.ob_map,
      c.timed_booked t,
    );
    distinct = remove_all-IsDistinct ticker s.tickers c.distinct;
  }

  dead-IsCoherent :
      (ticker : String) (now : ℤ) (s : TradingSession W Q X)
      → feed_confirmed s ticker now ≡ false
      → IsCoherent s
      → IsCoherent (record s { feed_dead = add_member ticker s.feed_dead })
  unfolding feed_confirmed contains
  dead-IsCoherent ticker now s u c = record {
    dead_silent = λ t. ground (arith, str_eq_iff ticker t, c.dead_silent t);
    timed_booked = c.timed_booked;
    distinct = c.distinct;
  }

module _ {W Q X : Type 0} ⦃d : Double W⦄ (om : OrderManagerIface W X)
    (strategy : StrategyIface (World W Q X)) where
  drop-IsCoherent :
      (ticker : String) (s : TradingSession W Q X)
      → IsCoherent s
      → IsCoherent (remove_market_if_idle om ticker s).1
  unfolding remove_market_if_idle
  drop-IsCoherent ticker s c =
      if-Keeps IsCoherent (not (is_tracked s ticker)) (false, s) _ (λ _. c)
        (λ _.
          if-Keeps IsCoherent (not (Quantity.is_zero (om.net_position s.world.orders ticker)))
            (false, s) _ (λ _. c)
            (λ _.
              if-Keeps IsCoherent (rests_on ticker (om.open_orders s.world.orders)) (false, s) _
                (λ _. c) (λ _. dropped-IsCoherent ticker s c)))

  moved-IsCoherent :
      (s : TradingSession W Q X) (world : World W Q X) (until : Dict ℤ) (totals : List (Dict W))
      → IsCoherent s
      → IsCoherent (record s { world = world; cooldown_until = until; saved = totals })
  moved-IsCoherent s world until totals c = record {
    dead_silent = c.dead_silent;
    timed_booked = c.timed_booked;
    distinct = c.distinct;
  }

  coherent : IsKept om strategy IsCoherent
  unfolding on_snapshot record_delta
  coherent = record {
    by_update = λ ticker book s. moved-IsCoherent s _ s.cooldown_until s.saved;
    by_forget_order = λ ticker id s. moved-IsCoherent s _ s.cooldown_until s.saved;
    by_forget_ticker = λ ticker s. moved-IsCoherent s _ s.cooldown_until s.saved;
    by_reset = λ s. moved-IsCoherent s _ s.cooldown_until s.saved;
    by_cancel = λ id s. moved-IsCoherent s _ s.cooldown_until s.saved;
    by_cancel_all = λ ticker s. moved-IsCoherent s _ s.cooldown_until s.saved;
    by_record_fill = λ fill s. moved-IsCoherent s _ s.cooldown_until s.saved;
    by_refresh = λ guard s. moved-IsCoherent s _ s.cooldown_until s.saved;
    by_portfolio = λ snap s. moved-IsCoherent s _ s.cooldown_until s.saved;
    by_tape = λ tape s. moved-IsCoherent s _ s.cooldown_until s.saved;
    by_save = λ totals s. moved-IsCoherent s s.world s.cooldown_until totals;
    by_cooldown = λ until s. moved-IsCoherent s s.world until s.saved;
    by_snapshot = λ book now s. heard-IsCoherent book.ticker now (apply_snapshot book) s;
    by_delta = λ ticker side price_cents qty now s.
        heard-IsCoherent ticker now (apply_delta (book_of ticker s.ob_map) side price_cents qty) s;
    by_seed = seeded-IsCoherent;
    by_adopt = adopt-IsCoherent;
    by_drop = drop-IsCoherent;
    by_dead = dead-IsCoherent;
  }

  -- After any events a market marked dead has had no book message since, a market that has had
  -- one has a book, and the tracked tickers do not repeat, if all this holds at the start.
  pub Reach-IsCoherent :
      {s t : TradingSession W Q X} → Reach om strategy s t → IsCoherent s → IsCoherent t
  Reach-IsCoherent r = Reach-Keeps om strategy IsCoherent coherent r
