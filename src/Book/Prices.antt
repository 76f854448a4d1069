-- ===== src/Book/Prices.antt =====
-- The prices read off a book: mid, micro-price and full-depth clearing price.
use kalshi_market_maker.Prelude.{
  ℤ, pos, ◌+ℤ◌, ltb_ℤ, leb_ℤ, Bool, true, false, ◌&&◌, ◌||◌, List, [], ◌∷◌, none, some,
  if◌then◌else◌, ◌≡◌, arith,
}
use kalshi_market_maker.Float.{Double}
use kalshi_market_maker.Quantity.{contracts}
use kalshi_market_maker.Types.{Level, Orderbook, complement_price}
use kalshi_market_maker.Book.{best_bid, best_ask}

-- `DepthWeighting`
pub record DepthWeighting (W : Type 0) : Type 0 where
  pub decay_per_cent : W
  pub max_levels : ℤ

pub record SideDepth (W : Type 0) : Type 0 where
  pub weight_total : W
  pub weighted_price_sum : W

-- The price of a level on the YES scale: a NO level is an ask at the complement.
abbrev pub yes_price : Bool → Level → ℤ
yes_price bids l = if bids then l.price_cents else complement_price l.price_cents

module _ {W : Type 0} ⦃d : Double W⦄ where
  open d use {of_int, add, sub, mul, div, le, pow}

  abbrev pub nought : W
  nought = of_int (pos 0)

  unfoldable pub mid_price_cents : Orderbook → W
  mid_price_cents b = elim (best_bid b) [
    | none ↦ nought
    | some bid ↦ elim (best_ask b) [
      | none ↦ nought
      | some ask ↦ div (add (of_int bid.price_cents) (of_int ask.price_cents)) (of_int (pos 2))
    ]
  ]

  unfoldable pub micro_price_cents : Orderbook → W
  micro_price_cents b = elim (best_bid b) [
    | none ↦ nought
    | some bid ↦ elim (best_ask b) [
      | none ↦ nought
      | some ask ↦
          let bid_qty = contracts bid.quantity in
          let ask_qty = contracts ask.quantity in
          let total_qty = add bid_qty ask_qty in
          if le total_qty nought
          then mid_price_cents b
          else div
              (add (mul (of_int bid.price_cents) ask_qty) (mul (of_int ask.price_cents) bid_qty))
              total_qty
    ]
  ]

  -- The weight of a level, by its distance from the mid.
  abbrev level_weight : DepthWeighting W → W → Bool → Level → W
  level_weight weighting mid bids l =
      let price = of_int (yes_price bids l) in
      mul (contracts l.quantity)
        (pow weighting.decay_per_cent (if bids then sub mid price else sub price mid))

  -- The loop of `accumulate_side`; the test at its head is the `break`.
  accumulate_from : DepthWeighting W → W → Bool → List Level → ℤ → SideDepth W → SideDepth W
  accumulate_from weighting mid bids [] used depth = depth
  accumulate_from weighting mid bids (l ∷ ls) used depth =
      let weight = level_weight weighting mid bids l in
      let rest = accumulate_from weighting mid bids ls (used +ℤ pos 1) (record {
        weight_total = add depth.weight_total weight;
        weighted_price_sum = add depth.weighted_price_sum (mul weight (of_int (yes_price bids l)));
      }) in
      if ltb_ℤ (pos 0) weighting.max_levels && leb_ℤ weighting.max_levels used then depth else rest

  unfoldable pub accumulate_side : DepthWeighting W → W → Bool → List Level → SideDepth W
  unfolding accumulate_from
  accumulate_side weighting mid bids ls =
      accumulate_from weighting mid bids ls (pos 0)
        (record { weight_total = nought; weighted_price_sum = nought })

  -- The last step of `clearing_price_cents`, from the depths of the two sides.
  unfoldable pub balance : Orderbook → SideDepth W → SideDepth W → W
  balance b bids asks =
      if le bids.weight_total nought || le asks.weight_total nought
      then micro_price_cents b
      else div
          (add (mul (div bids.weighted_price_sum bids.weight_total) asks.weight_total)
            (mul (div asks.weighted_price_sum asks.weight_total) bids.weight_total))
          (add bids.weight_total asks.weight_total)

  unfoldable pub clearing_price_cents : DepthWeighting W → Orderbook → W
  clearing_price_cents weighting b = elim b.yes_levels [
    | [] ↦ micro_price_cents b
    | _ ∷ _ ↦ elim b.no_levels [
      | [] ↦ micro_price_cents b
      | _ ∷ _ ↦
          let mid = mid_price_cents b in
          balance b (accumulate_side weighting mid true b.yes_levels)
            (accumulate_side weighting mid false b.no_levels)
    ]
  ]

  -- Arithmetic that rounds nothing at a weight and a price: 0 + x, x · 1 and x · p / x are exact.
  pub record IsUnrounded (weight price : W) : Type 0 where
    pub nought-add_weight : add nought weight ≡ weight
    pub nought-add_product : add nought (mul weight price) ≡ mul weight price
    pub mul-one : mul weight (of_int (pos 1)) ≡ weight
    pub div-mul : div (mul weight price) weight ≡ price

  accumulate_one :
      (weighting : DepthWeighting W) (mid : W) (bids : Bool) (l : Level)
      → ((y : W) → pow (of_int (pos 1)) y ≡ of_int (pos 1))
      → weighting.decay_per_cent ≡ of_int (pos 1)
      → IsUnrounded (contracts l.quantity) (of_int (yes_price bids l))
      → accumulate_side weighting mid bids (l ∷ []) ≡ (record {
        weight_total = contracts l.quantity;
        weighted_price_sum = mul (contracts l.quantity) (of_int (yes_price bids l));
      })
  unfolding accumulate_side
  accumulate_one weighting mid bids l one flat exact = ground (
    arith,
    one (if bids then sub mid (of_int (yes_price bids l)) else sub (of_int (yes_price bids l)) mid),
    exact.nought-add_weight,
    exact.nought-add_product,
    exact.mul-one,
  )

  abbrev SumPositive : W → W → Type 0
  SumPositive x y = le x nought ≡ false → le y nought ≡ false → le (add x y) nought ≡ false

  balance_one :
      (b : Orderbook) (bid ask : Level)
      → b.yes_levels ≡ bid ∷ []
      → b.no_levels ≡ ask ∷ []
      → IsUnrounded (contracts bid.quantity) (of_int bid.price_cents)
      → IsUnrounded (contracts ask.quantity) (of_int (complement_price ask.price_cents))
      → SumPositive (contracts bid.quantity) (contracts ask.quantity)
      → balance b
          (record {
            weight_total = contracts bid.quantity;
            weighted_price_sum = mul (contracts bid.quantity) (of_int bid.price_cents);
          })
          (record {
            weight_total = contracts ask.quantity;
            weighted_price_sum =
                mul (contracts ask.quantity) (of_int (complement_price ask.price_cents));
          })
        ≡ micro_price_cents b
  unfolding balance micro_price_cents best_bid best_ask
  balance_one b bid ask yes_side no_side exact_bid exact_ask sum =
      ground (arith, exact_bid.div-mul, exact_ask.div-mul, sum)

  -- With one level a side, flat decay and arithmetic that rounds nothing at these values, the
  -- clearing price is the micro-price.
  pub clearing-eq-micro :
      (weighting : DepthWeighting W) (b : Orderbook) (bid ask : Level)
      → ((y : W) → pow (of_int (pos 1)) y ≡ of_int (pos 1))
      → ((x y : W) → le x nought ≡ false → le y nought ≡ false → le (add x y) nought ≡ false)
      → weighting.decay_per_cent ≡ of_int (pos 1)
      → b.yes_levels ≡ bid ∷ []
      → b.no_levels ≡ ask ∷ []
      → IsUnrounded (contracts bid.quantity) (of_int bid.price_cents)
      → IsUnrounded (contracts ask.quantity) (of_int (complement_price ask.price_cents))
      → clearing_price_cents weighting b ≡ micro_price_cents b
  unfolding clearing_price_cents
  clearing-eq-micro weighting b bid ask one sum flat yes_side no_side exact_bid exact_ask = ground (
    arith,
    accumulate_one weighting (mid_price_cents b) true bid one flat exact_bid,
    accumulate_one weighting (mid_price_cents b) false ask one flat exact_ask,
    balance_one b bid ask yes_side no_side exact_bid exact_ask (sum _ _),
  )
