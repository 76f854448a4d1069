-- ===== src/Orders/Cancelling.antt =====
-- `cancel_all` of source/exchange/order_manager.cpp.
use kalshi_market_maker.Prelude.{
  String, Dict, List, [], ◌∷◌, true, false, Bool-cases, ◌≡◌, refl, sym, ◌∙◌, ◌⊎◌, inl, inr, arith,
  lookup, erase, lookup-erase, contains, str_eq, str_eq_comm, str_eq_refl, AllEntries, done,
  panicked, for_each, ◌>>=◌, ◌≢◌,
}
use mathlib.Core.Path.{subst}
use kalshi_market_maker.Types.{Order}
use kalshi_market_maker.Orders.Remote.{RestClient, Live, cancel, cancel_quietly, cancel_all, ids_of}

-- A client call may fail or throw, but does not end the process.
abbrev pub NeverPanics : {R : Type 0} → RestClient R → Type 0
NeverPanics {R} rest = (id : String) (r : R) → (rest.cancel_order id r).0 ≢ panicked

-- The exchange confirms every cancellation.
abbrev pub Accepts : {R : Type 0} → RestClient R → Type 0
Accepts {R} rest = (id : String) (r : R) → (rest.cancel_order id r).0 ≡ done true

abbrev OtherOrListed : String → List String → String → Order → Type 0
OtherOrListed ticker ids k o = (str_eq o.market_ticker ticker ≡ false) ⊎ (contains k ids ≡ true)

-- An order of another market.
abbrev pub ElsewhereOrder : String → String → Order → Type 0
ElsewhereOrder ticker k o = str_eq o.market_ticker ticker ≡ false

OtherOrListed-weaken :
    (ticker id : String) (ids : List String) (m : Dict Order)
    → AllEntries (OtherOrListed ticker ids) m
    → AllEntries (OtherOrListed ticker (id ∷ ids)) m
OtherOrListed-weaken ticker id ids [] a = tt
OtherOrListed-weaken ticker id ids ((k, o) ∷ m) (p, ps) =
    (unfold contains in ground arith, OtherOrListed-weaken ticker id ids m ps)

ids_of_here :
    (ticker k : String) (o : Order) (m : Dict Order)
    → str_eq o.market_ticker ticker ≡ true
    → ids_of ticker ((k, o) ∷ m) ≡ k ∷ ids_of ticker m
unfolding ids_of
ids_of_here ticker k o m h = rw h

ids_of_elsewhere :
    (ticker k : String) (o : Order) (m : Dict Order)
    → str_eq o.market_ticker ticker ≡ false
    → ids_of ticker ((k, o) ∷ m) ≡ ids_of ticker m
unfolding ids_of
ids_of_elsewhere ticker k o m h = rw h

head_listed : (k : String) (ids : List String) → contains k (k ∷ ids) ≡ true
unfolding contains
head_listed k ids = rw (str_eq_refl k)

listed : (ticker : String) (m : Dict Order) → AllEntries (OtherOrListed ticker (ids_of ticker m)) m
listed ticker [] = tt
listed ticker ((k, o) ∷ m) = elim (Bool-cases (str_eq o.market_ticker ticker)) [
  | inl here ↦
      subst (λ ids. AllEntries (OtherOrListed ticker ids) ((k, o) ∷ m))
        (sym (ids_of_here ticker k o m here))
        (
          inr (head_listed k (ids_of ticker m)),
          OtherOrListed-weaken ticker k (ids_of ticker m) m (listed ticker m),
        )
  | inr other ↦
      subst (λ ids. AllEntries (OtherOrListed ticker ids) ((k, o) ∷ m))
        (sym (ids_of_elsewhere ticker k o m other)) (inl other, listed ticker m)
]

-- Erasing the first id leaves only orders that the others list.
erase-OtherOrListed :
    (ticker id : String) (ids : List String) (m : Dict Order)
    → AllEntries (OtherOrListed ticker (id ∷ ids)) m
    → AllEntries (OtherOrListed ticker ids) (erase id m)
unfolding erase contains
erase-OtherOrListed ticker id ids [] a = tt
erase-OtherOrListed ticker id ids ((k, o) ∷ m) (p, ps) =
    ground (arith, erase-OtherOrListed ticker id ids m ps, str_eq_comm k id)

none_listed :
    (ticker : String) (m : Dict Order)
    → AllEntries (OtherOrListed ticker []) m
    → AllEntries (ElsewhereOrder ticker) m
none_listed ticker [] a = tt
none_listed ticker ((k, o) ∷ m) (p, ps) = (unfold contains in ground arith, none_listed ticker m ps)

pub Accepts-NeverPanics : {R : Type 0} (rest : RestClient R) → Accepts rest → NeverPanics rest
Accepts-NeverPanics rest a id r e = cc (a id r)

module _ {W R : Type 0} (rest : RestClient R) where
  abbrev pub orders : Live W R → Dict Order
  orders s = s.manager.open_orders

  pub cancel_quietly-returns :
      NeverPanics rest → (id : String) (s : Live W R) → (cancel_quietly rest id s).0 ≡ done tt
  unfolding cancel_quietly cancel
  cancel_quietly-returns n id s = ground (arith, n id s.exchange)

  -- One cancellation removes the order or leaves the book of orders as it was.
  pub cancel_quietly-orders :
      (id : String) (s : Live W R)
      → (orders (cancel_quietly rest id s).1 ≡ erase id (orders s))
        ⊎ (orders (cancel_quietly rest id s).1 ≡ orders s)
  unfolding cancel_quietly cancel
  cancel_quietly-orders id s = ground arith

  cancel_quietly-accepted :
      Accepts rest
      → (id : String) (s : Live W R) → orders (cancel_quietly rest id s).1 ≡ erase id (orders s)
  unfolding cancel_quietly cancel
  cancel_quietly-accepted a id s = ground (arith, a id s.exchange)

  pub loop_step :
      (id : String) (ids : List String) (s : Live W R)
      → (cancel_quietly rest id s).0 ≡ done tt
      → for_each (id ∷ ids) (cancel_quietly rest) s
        ≡ for_each ids (cancel_quietly rest) (cancel_quietly rest id s).1
  unfolding for_each
  loop_step id ids s e = rw (e, ◌>>=◌)

  loop_returns :
      NeverPanics rest
      → (ids : List String) (s : Live W R) → (for_each ids (cancel_quietly rest) s).0 ≡ done tt
  loop_returns n [] s = unfold for_each in refl
  loop_returns n (id ∷ ids) s =
      rw (loop_step id ids s (cancel_quietly-returns n id s))
        (loop_returns n ids (cancel_quietly rest id s).1)

  spared :
      (id j : String) (s : Live W R)
      → str_eq id j ≡ false
      → lookup j (orders (cancel_quietly rest id s).1) ≡ lookup j (orders s)
  spared id j s e = elim (cancel_quietly-orders id s) [
    | inl gone ↦ rw gone (rw lookup-erase (rw e))
    | inr same ↦ rw same
  ]

  loop_spares :
      NeverPanics rest
      → (ids : List String) (j : String) (s : Live W R) → contains j ids ≡ false
      → lookup j (orders (for_each ids (cancel_quietly rest) s).1) ≡ lookup j (orders s)
  loop_spares n [] j s h = unfold for_each in refl
  loop_spares n (id ∷ ids) j s h = rw (loop_step id ids s (cancel_quietly-returns n id s)) (
      loop_spares n ids j (cancel_quietly rest id s).1 (unfold contains in ground arith)
      ∙ spared id j s (unfold contains in ground arith))

  loop_clears :
      (ticker : String) (ids : List String) (s : Live W R)
      → Accepts rest
      → AllEntries (OtherOrListed ticker ids) (orders s)
      → AllEntries (ElsewhereOrder ticker) (orders (for_each ids (cancel_quietly rest) s).1)
  loop_clears ticker [] s a l = unfold for_each in none_listed ticker (orders s) l
  loop_clears ticker (id ∷ ids) s a l =
      rw (loop_step id ids s (cancel_quietly-returns (Accepts-NeverPanics rest a) id s)) (
        loop_clears ticker ids (cancel_quietly rest id s).1 a
          (rw (cancel_quietly-accepted a id s) (erase-OtherOrListed ticker id ids (orders s) l)))

  -- If the client never panics, cancel_all returns whatever it answers or throws, and keeps
  -- every order it does not list for the market.
  pub cancel_all_returns :
      (ticker : String) (s : Live W R)
      → NeverPanics rest
      → ((cancel_all rest ticker s).0 ≡ done tt)
        × ((j : String)
            → contains j (ids_of ticker (orders s)) ≡ false
            → lookup j (orders (cancel_all rest ticker s).1) ≡ lookup j (orders s))
  unfolding cancel_all
  cancel_all_returns ticker s n = (
    loop_returns n (ids_of ticker (orders s)) s,
    λ j. loop_spares n (ids_of ticker (orders s)) j s,
  )

  -- If the exchange confirms every cancellation, cancel_all leaves no order of the market
  -- open.
  pub cancel_all_clears :
      (ticker : String) (s : Live W R)
      → Accepts rest
      → AllEntries (ElsewhereOrder ticker) (orders (cancel_all rest ticker s).1)
  unfolding cancel_all
  cancel_all_clears ticker s a =
      loop_clears ticker (ids_of ticker (orders s)) s a (listed ticker (orders s))
