-- ===== src/Orders/Clearing.antt =====
-- `cancel_all` of source/exchange/order_manager.cpp as its clients may rely on it.
use kalshi_market_maker.Prelude.{
  String, List, [], ◌∷◌, done, for_each, ◌≡◌, inl, inr, AllEntries, erase-AllEntries,
}
use kalshi_market_maker.Float.{Double}
use kalshi_market_maker.Types.{Order}
use kalshi_market_maker.Iface.{OrderManagerIface}
use kalshi_market_maker.Orders.Remote.{RestClient, Live, cancel_quietly, cancel_all, ids_of}
use kalshi_market_maker.Orders.Implements.{order_manager}
use kalshi_market_maker.Orders.Cancelling.{
  Accepts, NeverPanics, Accepts-NeverPanics, ElsewhereOrder, cancel_quietly-orders,
  cancel_quietly-returns, loop_step, orders, cancel_all_clears, cancel_all_returns,
}

-- `cancel_all` returns, takes every open order off its market, and puts none on any.
pub record ClearsMarkets {W X : Type 0} (om : OrderManagerIface W X) : Type 0 where
  pub returns : (ticker : String) (x : X) → (om.cancel_all ticker x).0 ≡ done tt
  pub clears :
      (ticker : String) (x : X)
      → AllEntries (ElsewhereOrder ticker) (om.open_orders (om.cancel_all ticker x).1)
  pub adds_none :
      (ticker other : String) (x : X)
      → AllEntries (ElsewhereOrder other) (om.open_orders x)
      → AllEntries (ElsewhereOrder other) (om.open_orders (om.cancel_all ticker x).1)

module _ {W R : Type 0} (rest : RestClient R) (n : NeverPanics rest)
    (P : String → Order → Type 0) where
  one_keeps :
      (id : String) (s : Live W R)
      → AllEntries P (orders rest s)
      → AllEntries P (orders rest (cancel_quietly rest id s).1)
  one_keeps id s a = elim (cancel_quietly-orders rest id s) [
    | inl gone ↦ rw gone (erase-AllEntries P id (orders rest s) a)
    | inr same ↦ rw same a
  ]

  loop_keeps :
      (ids : List String) (s : Live W R)
      → AllEntries P (orders rest s)
      → AllEntries P (orders rest (for_each ids (cancel_quietly rest) s).1)
  loop_keeps [] s a = unfold for_each in a
  loop_keeps (id ∷ ids) s a =
      rw (loop_step rest id ids s (cancel_quietly-returns rest n id s))
        (loop_keeps ids (cancel_quietly rest id s).1 (one_keeps id s a))

module _ {W R : Type 0} ⦃d : Double W⦄ (rest : RestClient R) where
  cancel_all-keeps :
      NeverPanics rest
      → (P : String → Order → Type 0) (ticker : String) (s : Live W R)
      → AllEntries P (orders rest s)
      → AllEntries P (orders rest (cancel_all rest ticker s).1)
  unfolding cancel_all
  cancel_all-keeps n P ticker s = loop_keeps rest n P (ids_of ticker (orders rest s)) s

  -- Over an exchange that confirms every cancellation the order manager keeps what its clients
  -- rely on: cancel_all returns, takes every open order off its market, and puts none on any.
  pub order_manager-ClearsMarkets : Accepts rest → ClearsMarkets (order_manager {W = W} rest)
  order_manager-ClearsMarkets a = record {
    returns = λ ticker x. (cancel_all_returns rest ticker x (Accepts-NeverPanics rest a)).0;
    clears = λ ticker x. cancel_all_clears rest ticker x a;
    adds_none = λ ticker other x.
        cancel_all-keeps (Accepts-NeverPanics rest a) (ElsewhereOrder other) ticker x;
  }
