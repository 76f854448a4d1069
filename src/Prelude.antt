-- ===== src/Prelude.antt =====
-- The names that the other modules share: the libraries', passed on, and those of the children.
pub mod Tests
pub mod Lists
pub mod Int
pub mod Dicts
pub mod Outcomes
pub mod Decimal
pub use Tests.{ltb, leb, ◌==◌, if◌then◌else◌, ltb→lt, lt→ltb, leb→le, ==_iff, Bool-cases}
pub use Tests.{Option-cases}
pub use Lists.{length, length-append, All, All-append, All-map_of, keep_if, any}
pub use Int.{ℤ, pos, negsuc, pos_part, neg_part, sub_ℕ, ◌≤ℤ◌, ◌<ℤ◌, ltb_ℤ, leb_ℤ, eqb_ℤ}
pub use Int.{min_ℤ, max_ℤ, +ℤ_parts, -ℤ_parts, neg_parts, eq_of_parts, one_sign, int_laws}
pub use Int.{+ℤ_comm, +ℤ_assoc, +ℤ_zero, zero_+ℤ, eqb_ℤ_iff, ltb_ℤ→lt, leb_ℤ→le, ℤ-trichotomy}
unfoldable pub use Int.{◌+ℤ◌, ◌-ℤ◌, ◌*ℤ◌, neg, abs_ℤ}
pub use Dicts.{Dict, str_eq, str_eq_iff, str_eq_refl, str_eq_comm, str_ne, AllEntries}
pub use Dicts.{
  lookup-insert, lookup-erase, get_or-insert, get_or-erase, has_key-insert, has_key-erase,
  contains-append,
}
pub use Dicts.{insert-AllEntries, erase-AllEntries, lookup-AllEntries}
unfoldable pub use Dicts.{lookup, insert, erase, get_or, has_key, contains}
pub use Prim.Native.Nat.{ℕ, zero, suc, ◌+◌, ◌-◌, ◌*◌, ◌/◌, ◌%◌, ◌^◌, ◌≤◌, ◌<◌}
pub use Prim.Native.String.{String}
pub use mathlib.Core.Path.{◌≡◌, refl, sym, ap, ◌∙◌}
pub use mathlib.Core.Logic.{◌≢◌, ◌↔◌, ◌⊎◌, inl, inr}
pub use mathlib.Core.Bool.{Bool, true, false, not, ◌&&◌, ◌||◌}
pub use mathlib.Core.Option.{Option, none, some}
pub use mathlib.Core.List.{List, [], ◌∷◌, ◌++◌, map}
pub use native.Mathlib.Omega.{arith}
pub use Outcomes.{
  Outcome, done, threw, panicked, Action, pure, ◌>>=◌, ◌>>◌, ensure, try_catch, with_panic_handler,
}
pub use Outcomes.{then_done, for_each_returns, for_each_keeps, for_each-All}
unfoldable pub use Outcomes.{for_each}
unfoldable pub use Decimal.{to_string}
