-- ===== src/Base.antt =====
-- The names that all modules share: the libraries', passed on, and those of the children (tests
-- and case splits, machine words, lists, texts as bytes, results with errors and panics).
mod Tests
mod Word
mod Lists
mod Text
mod Utf8
pub mod Map
pub mod Outcome
pub use Tests.*
pub use Word.*
unfoldable pub use Word.{to_le_bytes}
pub use Lists.*
unfoldable pub use Text.{
  is_char_boundary, str_eq, str_ltb, starts_with, split, parse_u128, trim, decimal,
}
pub use Text.{Str, codes, str_eq_iff, str_key}
unfoldable pub use Utf8.{
  next_bytes, grow_char, start_char, cut_off, next_char, repair, from_utf8_lossy, from_utf8,
}
pub use Utf8.{IsAscii, length-from_utf8_lossy, from_utf8-IsAscii}
pub use Prim.Native.Nat.{ℕ, zero, suc, ◌+◌, ◌-◌, ◌*◌, ◌/◌, ◌%◌, ◌^◌, ◌≤◌, ◌<◌, min, max}
pub use mathlib.Core.Path.{◌≡◌, refl, sym, ap, subst, ◌∙◌}
pub use mathlib.Core.Logic.{◌≢◌, ◌↔◌, ◌⊎◌, inl, inr}
pub use mathlib.Core.Bool.{Bool, true, false, not, ◌&&◌, ◌||◌}
pub use mathlib.Core.Option.{Option, none, some}
pub use mathlib.Core.List.{List, [], ◌∷◌, ◌++◌, map, reverse}
pub use native.Mathlib.Omega.{arith}
