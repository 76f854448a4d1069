-- ===== src/Session/Rotation.antt =====
-- Dropping a market of source/engine/trading_session.cpp: `remove_market_if_idle`.
use kalshi_market_maker.Prelude.{
  Bool, true, false, not, ◌&&◌, String, List, [], ◌∷◌, if◌then◌else◌, Bool-cases, inl, inr, ◌≡◌,
  refl, arith, contains, str_eq, str_eq_iff, lookup, none, lookup-erase,
}
use kalshi_market_maker.Quantity
use kalshi_market_maker.Iface.{OrderManagerIface}
use kalshi_market_maker.Session.{TradingSession, remove_all, rests_on, is_tracked}
use kalshi_market_maker.Session.Safety.{remove_market_if_idle}

pub contains-remove_all :
    (t k : String) (js : List String)
    → contains t (remove_all k js) ≡ (not (str_eq k t) && contains t js)
unfolding contains remove_all
contains-remove_all t k [] = ground arith
contains-remove_all t k (j ∷ js) =
    ground (arith, contains-remove_all t k js, str_eq_iff j k, str_eq_iff j t, str_eq_iff k t)

tracked-remove_all :
    {W Q X : Type 0} (t k : String) (s : TradingSession W Q X)
    → contains t (remove_all k s.tickers) ≡ (not (str_eq k t) && is_tracked s t)
unfolding is_tracked
tracked-remove_all t k s = contains-remove_all t k s.tickers

module _ {W Q X : Type 0} (om : OrderManagerIface W X) (ticker : String)
    (s : TradingSession W Q X) where
  -- The market is tracked, flat, and without an order.
  pub record IsIdle : Type 0 where
    pub tracked : is_tracked s ticker ≡ true
    pub flat : Quantity.is_zero (om.net_position s.world.orders ticker) ≡ true
    pub unordered : rests_on ticker (om.open_orders s.world.orders) ≡ false

  -- The ways out of `remove_market_if_idle`.
  pub data Rotated : Bool × TradingSession W Q X → Type 0 where
    refused : (IsIdle → ⊥) → Rotated (false, s)
    dropped :
        (after : TradingSession W Q X)
        → IsIdle
        → ((t : String) → is_tracked after t ≡ (not (str_eq ticker t) && is_tracked s t))
        → ((t : String)
            → lookup t after.ob_map ≡ (if str_eq ticker t then none else lookup t s.ob_map))
        → after.world ≡ s.world
        → Rotated (true, after)

  -- remove_market_if_idle returns true exactly on a tracked market without a position and
  -- without an open order, and then drops it from the tickers and the books and leaves the
  -- rest of them and the world alone; otherwise it changes nothing.
  pub remove_market_if_idle-Rotated : Rotated (remove_market_if_idle om ticker s)
  unfolding remove_market_if_idle is_tracked
  remove_market_if_idle-Rotated = elim (Bool-cases (is_tracked s ticker)) [
    | inr away ↦ rw away (refused (λ i. cc (away, i.tracked)))
    | inl tracked ↦ elim (Bool-cases (Quantity.is_zero (om.net_position s.world.orders ticker))) [
      | inr held ↦ rw (tracked, held) (refused (λ i. cc (held, i.flat)))
      | inl flat ↦ elim (Bool-cases (rests_on ticker (om.open_orders s.world.orders))) [
        | inl rests ↦ rw (tracked, flat, rests) (refused (λ i. cc (rests, i.unordered)))
        | inr none_rests ↦
            rw (tracked, flat, none_rests)
              (dropped _ (record { tracked = tracked; flat = flat; unordered = none_rests })
                (λ t. tracked-remove_all t ticker s) (λ t. lookup-erase ticker t s.ob_map) refl)
      ]
    ]
  ]
