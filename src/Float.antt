-- ===== src/Float.antt =====
-- All that the sources do with a `double`. The type and its operations are IEEE arithmetic of the
-- platform, so they are a parameter. `Float.Laws` names what the theorems rely on.
pub mod Laws
pub mod Exact
use kalshi_market_maker.Prelude.{ℤ, Bool, if◌then◌else◌}

pub record Double (W : Type 0) : Type 0 where
  -- `static_cast<double>` of an integer, and the literals
  pub of_int : ℤ → W
  pub add : W → W → W
  pub sub : W → W → W
  pub mul : W → W → W
  pub div : W → W → W
  pub negate : W → W
  pub lt : W → W → Bool
  pub le : W → W → Bool
  pub eq : W → W → Bool
  pub is_finite : W → Bool
  -- `std::numeric_limits<double>::infinity()` and `lowest()`
  pub infinity : W
  pub lowest : W
  pub exp : W → W
  pub exp2 : W → W
  pub log : W → W
  pub pow : W → W → W
  -- `static_cast<int>` of `std::floor`, `std::ceil` and `std::round`
  pub floor_int : W → ℤ
  pub ceil_int : W → ℤ
  pub round_int : W → ℤ

module _ {W : Type 0} ⦃d : Double W⦄ where
  -- `std::max`, `std::min` and `std::clamp`, with the order of their comparisons
  abbrev pub fmax : W → W → W
  fmax x y = if d.lt x y then y else x

  abbrev pub fmin : W → W → W
  fmin x y = if d.lt y x then y else x

  abbrev pub fclamp : W → W → W → W
  fclamp x lo hi = if d.lt x lo then lo else if d.lt hi x then hi else x
