-- ===== src/Quantity.antt =====
-- source/core/quantity.hpp: a signed count in hundredths of a contract. `std::int64_t` overflow is
-- undefined behaviour in C++, so the count is an unbounded integer.
use kalshi_market_maker.Prelude.{
  ℤ, pos, ◌+ℤ◌, ◌-ℤ◌, ◌*ℤ◌, neg, ltb_ℤ, leb_ℤ, eqb_ℤ, Bool, ◌||◌, if◌then◌else◌,
}
use kalshi_market_maker.Float.{Double}

pub record Quantity : Type 0 where
  pub centi : ℤ

abbrev pub centi_per_contract : ℤ
centi_per_contract = pos 100

abbrev pub from_centi : ℤ → Quantity
from_centi c = record { centi = c }

abbrev pub from_contracts : ℤ → Quantity
from_contracts n = record { centi = n *ℤ centi_per_contract }

-- `Quantity{}`
abbrev pub zero_quantity : Quantity
zero_quantity = record { centi = pos 0 }

abbrev pub is_zero : Quantity → Bool
is_zero q = eqb_ℤ q.centi (pos 0)

abbrev pub is_positive : Quantity → Bool
is_positive q = ltb_ℤ (pos 0) q.centi

-- unary minus
abbrev pub negated : Quantity → Quantity
negated q = record { centi = neg q.centi }

abbrev pub add : Quantity → Quantity → Quantity
add q r = record { centi = q.centi +ℤ r.centi }

abbrev pub sub : Quantity → Quantity → Quantity
sub q r = record { centi = q.centi -ℤ r.centi }

-- `operator<=>`
abbrev pub lt : Quantity → Quantity → Bool
lt q r = ltb_ℤ q.centi r.centi

abbrev pub le : Quantity → Quantity → Bool
le q r = leb_ℤ q.centi r.centi

abbrev pub eq : Quantity → Quantity → Bool
eq q r = eqb_ℤ q.centi r.centi

abbrev pub abs : Quantity → Quantity
abs q = if is_positive q || is_zero q then q else negated q

abbrev pub min : Quantity → Quantity → Quantity
min q r = if lt q r then q else r

module _ {W : Type 0} ⦃d : Double W⦄ where
  abbrev pub contracts : Quantity → W
  contracts q = d.div (d.of_int q.centi) (d.of_int centi_per_contract)
