-- ===== src/Base.antt =====
-- The names that the other modules share: the libraries', passed on, and those of the children.
mod Tests
mod Lists
mod Text
mod Int
mod Int64
mod Sort
mod Decimal
mod Orders
pub use Tests.*
pub use Lists.*
unfoldable pub use Text.{text_discrete}
pub use Text.{GoString, codes, text_eq, text_ltb, text_elem}
unfoldable pub use Decimal.{is_digit, parse_digits, parse_unsigned, positive, negative, parse_int}
unfoldable pub use Sort.{place, sort}
pub use Sort.{
  take, drop, take-add, take_all, IsOrder, IsSorted, sort-perm, length-sort, sort-IsSorted,
}
pub use Orders.{
  text_ltb-IsOrder, lexicographic, lexicographic-IsOrder, flip-IsOrder, pull-IsOrder, ltb-IsOrder,
  ltb_ℤ-IsOrder,
}
pub use Int64.{half_word, word, IsInt64, is_int64, wrap64-IsInt64, wrap64_of_IsInt64}
unfoldable pub use Int64.{wrap64, add64}
unfoldable pub use Int.{int_discrete, ◌+ℤ◌, ◌-ℤ◌}
pub use Int.{
  ℤ, pos, negsuc, pos_part, neg_part, sub_ℕ, ◌≤ℤ◌, ltb_ℤ, leb_ℤ, int_eq, negate, +ℤ_parts, -ℤ_parts,
  eq_of_parts, int_laws, add-zero_ℤ, zero-add_ℤ,
}
pub use Prim.Native.Nat.{ℕ, zero, suc, ◌+◌, ◌-◌, ◌*◌, ◌/◌, ◌%◌, ◌^◌, ◌≤◌, ◌<◌}
pub use mathlib.Core.Path.{◌≡◌, refl, sym, ap, subst, ◌∙◌}
pub use mathlib.Core.Logic.{◌≢◌, ◌↔◌, ◌⊎◌, inl, inr}
pub use mathlib.Core.Bool.{Bool, true, false, not, ◌&&◌, ◌||◌}
pub use mathlib.Core.Option.{Option, none, some}
pub use mathlib.Core.List.{List, [], ◌∷◌, ◌++◌, map}
pub use native.Mathlib.Omega.{arith}
unfoldable pub use native.Mathlib.Decide.{dec_lt, ℕ_discrete}
