-- ===== src/Shared.antt =====
-- The names that the modules of the kernel's parts share: the libraries', passed on, and those of
-- five children: tests and results, arrays as lists and such lists in parts, C's `int`, and `|` on
-- words.
mod Tests
mod Lists
mod Appends
mod Int
mod Bits
pub use Tests.*
pub use Lists.*
pub use Appends.*
unfoldable pub use Int.{wrap_int, add_int, sub_int, ◌+ℤ◌, ◌-ℤ◌}
pub use Int.{
  ℤ, pos, negsuc, pos_part, neg_part, sub_ℕ, ◌≤ℤ◌, lt_int, eq_int, minus_one, IsInt, to_bits,
  of_bits, eq_int_iff, eq_int_self, +ℤ_parts, add_int-IsInt, add_int-sub_int, add_int-pos,
  sub_int-pos, lt_int-pos,
}
pub use Bits.{
  page-bit_or, offset-bit_or, page_address-bit_or, page_flags-bit_or, bit_or_step, bit_or-zero,
}
pub use Prim.Native.Nat.{bit_or, ℕ, zero, suc, ◌+◌, ◌-◌, ◌*◌, ◌/◌, ◌%◌, ◌^◌, ◌≤◌, ◌<◌}
pub use mathlib.Core.Path.{◌≡◌, refl, sym, ap, subst, ◌∙◌}
pub use mathlib.Core.Logic.{◌≢◌, ◌↔◌, ◌⊎◌, inl, inr}
pub use mathlib.Core.Bool.{Bool, true, false, not, ◌&&◌, ◌||◌}
pub use mathlib.Core.Option.{Option, none, some, some-injective}
pub use mathlib.Core.List.{List, [], ◌∷◌, ◌++◌, map, append_assoc, append-nil}
pub use native.Mathlib.Omega.{arith}
