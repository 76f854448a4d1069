-- ===== src/Float/Laws.antt =====
-- What IEEE 754 binary64 arithmetic guarantees, as far as the theorems need it.
use kalshi_market_maker.Prelude.{
  ℤ, pos, ◌+ℤ◌, ◌-ℤ◌, ◌*ℤ◌, ◌^◌, ◌≤◌, ◌<ℤ◌, ltb_ℤ, ◌≡◌, true, pos_part, neg_part, ◌+◌,
}
use kalshi_market_maker.Float.{Double}

-- The integers that a double holds exactly.
abbrev pub IsExact : ℤ → Type 0
IsExact a = pos_part a + neg_part a ≤ 2 ^ 53

-- Integers up to 2^53 convert, add, subtract, multiply and compare exactly, and an exact quotient
-- is returned as it is.
pub record IsExactOnIntegers {W : Type 0} (d : Double W) : Type 0 where
  pub add_of_int :
      (a b : ℤ)
      → IsExact a
      → IsExact b
      → IsExact (a +ℤ b)
      → d.add (d.of_int a) (d.of_int b) ≡ d.of_int (a +ℤ b)
  pub sub_of_int :
      (a b : ℤ)
      → IsExact a
      → IsExact b
      → IsExact (a -ℤ b)
      → d.sub (d.of_int a) (d.of_int b) ≡ d.of_int (a -ℤ b)
  pub mul_of_int :
      (a b : ℤ)
      → IsExact a
      → IsExact b
      → IsExact (a *ℤ b)
      → d.mul (d.of_int a) (d.of_int b) ≡ d.of_int (a *ℤ b)
  pub div_of_int :
      (a : ℤ)
      → IsExact (a *ℤ pos 100)
      → d.div (d.of_int (a *ℤ pos 100)) (d.of_int (pos 100)) ≡ d.of_int a
  pub lt_of_int : (a b : ℤ) → IsExact a → IsExact b → d.lt (d.of_int a) (d.of_int b) ≡ ltb_ℤ a b

-- Rounding down is below rounding up: floor x ≤ x < y ≤ ceil y.
pub record RoundsOutward {W : Type 0} (d : Double W) : Type 0 where
  pub floor-lt-ceil : (x y : W) → d.lt x y ≡ true → d.floor_int x <ℤ d.ceil_int y
