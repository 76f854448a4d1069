-- ===== src/Orders/Remote.antt =====
-- The calls of `OrderManager` that go to the exchange, over the REST client's interface.
use kalshi_market_maker.Prelude.{
  ℤ, pos, ltb_ℤ, String, Dict, List, [], ◌∷◌, Option, none, some, if◌then◌else◌, Bool, lookup,
  insert, erase, str_eq, done, Action, pure, ensure, ◌>>=◌, ◌>>◌, try_catch, for_each,
}
use kalshi_market_maker.Quantity.{Quantity}
use kalshi_market_maker.Types.{Side, Order, is_valid_price}
use kalshi_market_maker.Orders.{Manager}

-- What `OrderManager` calls of source/exchange/rest_client.cpp, over the state `R` of the exchange.
pub record RestClient (R : Type 0) : Type 0 where
  pub place_order : String → Side → ℤ → ℤ → Action R Order
  pub cancel_order : String → Action R Bool
  pub amend_order : String → String → Side → ℤ → Quantity → Action R (Option String)

pub record Live (W R : Type 0) : Type 0 where
  pub manager : Manager W
  pub exchange : R

-- The order moves to the new id with the new price.
abbrev pub rename_order : String → String → ℤ → Dict Order → Dict Order
rename_order order_id new_id price orders = elim (lookup order_id orders) [
  | none ↦ orders
  | some order ↦
      insert new_id (record order { id = new_id; price_cents = price }) (erase order_id orders)
]

-- The ids that `cancel_all` collects.
unfoldable pub ids_of : String → Dict Order → List String
ids_of ticker [] = []
ids_of ticker ((id, order) ∷ orders) =
    if str_eq order.market_ticker ticker then id ∷ ids_of ticker orders else ids_of ticker orders

module _ {W R : Type 0} where
  -- A call of the client.
  abbrev pub remote : {A : Type 0} → Action R A → Action (Live W R) A
  remote call s = let (r, e) = call s.exchange in (r, record s { exchange = e })

  abbrev pub with_orders : (Dict Order → Dict Order) → Action (Live W R) (Unit {0})
  with_orders f s =
      (done tt, record s { manager = record (s.manager) { open_orders = f s.manager.open_orders } })

  module _ (rest : RestClient R) where
    unfoldable pub place : String → Side → ℤ → ℤ → Action (Live W R) Order
    place ticker side price quantity = do
      ensure (is_valid_price price)
      ensure (ltb_ℤ (pos 0) quantity)
      order ← remote (rest.place_order ticker side price quantity)
      with_orders (insert order.id order)
      pure order

    unfoldable pub cancel : String → Action (Live W R) Bool
    cancel order_id = do
      success ← remote (rest.cancel_order order_id)
      with_orders (λ orders. if success then erase order_id orders else orders)
      pure success

    unfoldable pub amend : String → String → Side → ℤ → Quantity → Action (Live W R) (Option String)
    amend order_id ticker side price count = do
      answer ← remote (rest.amend_order order_id ticker side price count)
      elim answer [
        | none ↦ pure none
        | some new_id ↦ do with_orders (rename_order order_id new_id price); pure (some new_id)
      ]

    -- The body of its second loop: no exception leaves it.
    unfoldable pub cancel_quietly : String → Action (Live W R) (Unit {0})
    cancel_quietly order_id = try_catch (cancel order_id >>= λ _. pure tt) (pure tt)

    unfoldable pub cancel_all : String → Action (Live W R) (Unit {0})
    unfolding ids_of
    cancel_all ticker s = for_each (ids_of ticker s.manager.open_orders) cancel_quietly s
