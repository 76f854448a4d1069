-- ===== src/Float/Exact.antt =====
-- Whole numbers as a `Double`: an instance at which the laws hold, for the witnesses and tests.
use Prim.Native.Nat.{◌/◌}
use kalshi_market_maker.Prelude.{
  ℤ, pos, negsuc, ◌+ℤ◌, ◌-ℤ◌, ◌*ℤ◌, neg, pos_part, neg_part, sub_ℕ, ltb_ℤ, leb_ℤ, eqb_ℤ, ◌≡◌, refl,
  true, arith,
}
use kalshi_market_maker.Float.{Double}
use kalshi_market_maker.Float.Laws.{IsExactOnIntegers, RoundsOutward}

-- The quotient, rounded towards zero.
abbrev quotient : ℤ → ℤ → ℤ
quotient a b = sub_ℕ (pos_part a / (pos_part b)) (neg_part a / (pos_part b))

instance abbrev pub whole : Double ℤ
whole = record {
  of_int = λ a. a;
  add = ◌+ℤ◌;
  sub = ◌-ℤ◌;
  mul = ◌*ℤ◌;
  div = quotient;
  negate = neg;
  lt = ltb_ℤ;
  le = leb_ℤ;
  eq = eqb_ℤ;
  is_finite = λ _. true;
  infinity = pos 1000000000000;
  lowest = negsuc 1000000000000;
  exp = λ _. pos 1;
  exp2 = λ _. pos 1;
  log = λ _. pos 1;
  pow = λ _ _. pos 1;
  floor_int = λ a. a;
  ceil_int = λ a. a;
  round_int = λ a. a;
}

quotient_exact : (a : ℤ) → quotient (a *ℤ pos 100) (pos 100) ≡ a
unfolding ◌*ℤ◌
quotient_exact a = ground arith

pub whole-IsExactOnIntegers : IsExactOnIntegers whole
unfolding ◌+ℤ◌ ◌-ℤ◌ ◌*ℤ◌ neg
whole-IsExactOnIntegers = record {
  add_of_int = λ a b _ _ _. refl;
  sub_of_int = λ a b _ _ _. refl;
  mul_of_int = λ a b _ _ _. refl;
  div_of_int = λ a _. quotient_exact a;
  lt_of_int = λ a b _ _. refl;
}

pub whole-RoundsOutward : RoundsOutward whole
unfolding ◌+ℤ◌ ◌-ℤ◌ ◌*ℤ◌ neg
whole-RoundsOutward = record { floor-lt-ceil = λ x y h. ground arith }
