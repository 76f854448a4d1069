-- ===== src/Pricing.antt =====
-- source/engine/pricing_model.cpp and source/engine/fair_value.cpp: the pricing models. A decimal
-- literal is the quotient of two whole numbers, which IEEE division rounds to the same `double`.
use kalshi_market_maker.Prelude.{ℤ, pos, Option, none, some}
use kalshi_market_maker.Float.{Double, fclamp}

pub record FairValueInput (W : Type 0) : Type 0 where
  pub mid_cents : W
  pub time_to_close_hours : W
  pub input_position : ℤ
  pub external_prob : Option W
  pub tape_vwap_cents : Option W

-- `IPricingModel`, which `FairValueEngine::estimate` calls.
pub record PricingModel (W : Type 0) : Type 0 where
  pub estimate : FairValueInput W → W

module _ {W : Type 0} ⦃d : Double W⦄ where
  -- A whole number and a hundredth as literals.
  abbrev pub whole_literal : ℤ → W
  whole_literal n = d.of_int n

  abbrev pub hundredths : ℤ → W
  hundredths n = d.div (d.of_int n) (d.of_int (pos 100))

  abbrev pub clamp_cents : W → W
  clamp_cents value = fclamp value (whole_literal (pos 1)) (whole_literal (pos 99))

  -- (1 - w) * value + w * other
  abbrev blend : W → W → W → W
  blend w value other = d.add (d.mul (d.sub (whole_literal (pos 1)) w) value) (d.mul w other)

  unfoldable pub heuristic_estimate : FairValueInput W → W
  heuristic_estimate input =
      let decay = d.exp (d.div (d.negate input.time_to_close_hours) (whole_literal (pos 24))) in
      let decayed =
        d.add input.mid_cents (d.mul (d.sub (whole_literal (pos 50)) input.mid_cents) decay) in
      let skewed = d.sub decayed (d.mul (d.of_int input.input_position) (hundredths (pos 5))) in
      clamp_cents (elim input.external_prob [
        | none ↦ skewed
        | some prob ↦ blend (hundredths (pos 30)) skewed (d.mul prob (whole_literal (pos 100)))
      ])

  unfoldable pub clearing_estimate : W → FairValueInput W → W
  clearing_estimate tape_weight input = clamp_cents (elim input.tape_vwap_cents [
    | none ↦ input.mid_cents
    | some vwap ↦
        d.add (d.mul tape_weight vwap)
          (d.mul (d.sub (whole_literal (pos 1)) tape_weight) input.mid_cents)
  ])

  abbrev pub clamp_prob : W → W
  clamp_prob prob = fclamp prob (hundredths (pos 1)) (hundredths (pos 99))

  unfoldable pub debias_probability : W → W → W
  debias_probability market_prob beta = clamp_prob (
      d.div (d.sub market_prob (d.div beta (whole_literal (pos 2))))
        (d.sub (whole_literal (pos 1)) beta))

  -- The constructor of `ViewBasedModel` clamps its beta.
  abbrev pub view_beta : W → W
  view_beta beta = fclamp beta (whole_literal (pos 0)) (hundredths (pos 95))

  unfoldable pub view_estimate : W → FairValueInput W → W
  view_estimate beta input =
      let view_prob : W = elim input.external_prob [
        | some prob ↦ clamp_prob prob
        | none ↦ debias_probability (d.div input.mid_cents (whole_literal (pos 100))) beta
      ] in
      d.mul view_prob (whole_literal (pos 100))

  abbrev pub heuristic_model : PricingModel W
  heuristic_model = record { estimate = heuristic_estimate }

  abbrev pub clearing_price_model : W → PricingModel W
  clearing_price_model tape_weight = record { estimate = clearing_estimate tape_weight }

  abbrev pub view_based_model : W → PricingModel W
  view_based_model beta = record { estimate = view_estimate (view_beta beta) }
