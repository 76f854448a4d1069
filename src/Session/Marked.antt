-- ===== src/Session/Marked.antt =====
-- What a fill leaves in the order manager and on the tape, for on_fill of
-- source/engine/trading_session.cpp.
use kalshi_market_maker.Prelude.{
  true, false, String, List, ◌∷◌, Option, none, some, contains, Bool-cases, inl, inr, ◌≡◌, refl, ap,
  sym, ◌∙◌, arith, str_eq, str_eq_refl, done,
}
use kalshi_market_maker.Float.{Double}
use kalshi_market_maker.Types.{Fill}
use kalshi_market_maker.Tape.{TradeTapeConfig, TradeTape, record_own_fill}
use kalshi_market_maker.Orders
use kalshi_market_maker.Orders.{Manager, fill_key, apply_fill}
use kalshi_market_maker.Orders.Fills.{IsValidFill}
use kalshi_market_maker.Session.{TradingSession, add_member, is_tracked}
use kalshi_market_maker.Session.Trades.{mark_own}

contains_self : (k : String) (ks : List String) → contains k (k ∷ ks) ≡ true
unfolding contains
contains_self k ks = ground (arith, str_eq_refl k)

add_member_twice :
    (id : String) (ids : List String) → add_member id (add_member id ids) ≡ add_member id ids
add_member_twice id ids = ground (arith, contains_self id ids)

own_fill_twice :
    (id : String) (tape : TradeTape)
    → record_own_fill id (record_own_fill id tape) ≡ record_own_fill id tape
unfolding record_own_fill
own_fill_twice id tape = elim (Bool-cases (str_eq id "")) [
  | inl e ↦ rw e
  | inr e ↦
      rw e
        (ap (λ ids. record tape { own_trade_ids = ids }) (add_member_twice id tape.own_trade_ids))
]

module _ {W : Type 0} ⦃d : Double W⦄ (fill : Fill W) where
  -- The manager has seen a valid fill before.
  pub known_fill :
      (m : Manager W)
      → IsValidFill fill
      → contains (fill_key fill) m.seen_fills ≡ true
      → Orders.record_fill fill m ≡ (done false, m)
  unfolding Orders.record_fill
  known_fill m (price, size) old = rw (price, size, old)

  pub new_fill :
      (m : Manager W)
      → IsValidFill fill
      → contains (fill_key fill) m.seen_fills ≡ false
      → Orders.record_fill fill m ≡ (done true, apply_fill fill m)
  unfolding Orders.record_fill
  new_fill m (price, size) fresh = rw (price, size, fresh)

  pub now_known : (m : Manager W) → contains (fill_key fill) (apply_fill fill m).seen_fills ≡ true
  unfolding apply_fill
  now_known m = contains_self (fill_key fill) m.seen_fills

  -- What `mark_own` makes of the tape.
  abbrev pub own_tape :
      Option (TradeTapeConfig W × TradeTape) → Option (TradeTapeConfig W × TradeTape)
  own_tape none = none
  own_tape (some (config, tape)) = some (config, record_own_fill fill.trade_id tape)

  own_tape_twice :
      (tape : Option (TradeTapeConfig W × TradeTape)) → own_tape (own_tape tape) ≡ own_tape tape
  own_tape_twice none = refl
  own_tape_twice (some (config, tape)) =
      ap (λ own. some (config, own)) (own_fill_twice fill.trade_id tape)

  module _ {Q X : Type 0} where
    abbrev marked_with :
        TradingSession W Q X → Option (TradeTapeConfig W × TradeTape) → TradingSession W Q X
    marked_with s tape = record s { world = record (s.world) { trade_tape = tape } }

    mark_own_lem :
        (s : TradingSession W Q X) → mark_own fill s ≡ marked_with s (own_tape s.world.trade_tape)
    unfolding mark_own
    mark_own_lem s = known s.world.trade_tape
      where
        known :
            (tape : Option (TradeTapeConfig W × TradeTape))
            → marked_with s (elim tape as (λ _. Option (TradeTapeConfig W × TradeTape)) [
              | none ↦ none
              | some (config, own) ↦ some (config, record_own_fill fill.trade_id own)
            ])
              ≡ marked_with s (own_tape tape)
        known none = refl
        known (some (config, tape)) = refl

    pub orders_marked : (s : TradingSession W Q X) → (mark_own fill s).world.orders ≡ s.world.orders
    unfolding mark_own
    orders_marked s = refl

    -- A session whose tape knows the fill is not changed by `mark_own`.
    pub mark_own_fixed :
        (s : TradingSession W Q X)
        → own_tape s.world.trade_tape ≡ s.world.trade_tape
        → mark_own fill s ≡ s
    mark_own_fixed s e = mark_own_lem s ∙ ap (marked_with s) e

    pub marked_tape :
        (s : TradingSession W Q X)
        → own_tape (mark_own fill s).world.trade_tape ≡ (mark_own fill s).world.trade_tape
    marked_tape s =
        let e = ap (λ (x : TradingSession W Q X). x.world.trade_tape) (mark_own_lem s) in
        ap own_tape e ∙ own_tape_twice s.world.trade_tape ∙ sym e

    pub tracked_marked :
        (s : TradingSession W Q X) (t : String) → is_tracked (mark_own fill s) t ≡ is_tracked s t
    unfolding is_tracked mark_own
    tracked_marked s t = refl
