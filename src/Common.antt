-- ===== src/Common.antt =====
-- The names that the other modules share: the libraries', passed on, and those of the children.
mod Checks
mod Lists
mod Words
mod Dictionary
mod Utf8
mod Strings
pub mod Whitespace
pub mod Xor
pub mod Float
mod Digits
pub mod Options
pub mod Cursor
pub mod Effects
pub use Checks.*
pub use Lists.*
pub use Words.*
unfoldable pub use Words.{be, lex_ltb, text_eq}
pub use Dictionary.{
  Eq, nat_eq, text_eq_instance, Dict, lookup-insert, lookup-remove, lookup-insert_self,
}
pub use Dictionary.{beq_refl, lookup-All}
unfoldable pub use Dictionary.{lookup, insert, remove}
unfoldable pub use Utf8.{is_utf8}
unfoldable pub use Digits.{decimal, hex_encode, hexadecimal}
pub use Digits.{read_hex, read_hex-hexadecimal}
pub use Strings.{codes, split_once-append, split_once_parts}
unfoldable pub use Strings.{split_once, starts_with, contains}
pub use Prim.Native.Nat.{ℕ, zero, suc, ◌+◌, ◌-◌, ◌*◌, ◌/◌, ◌%◌, ◌^◌, ◌≤◌, ◌<◌, min, max}
pub use mathlib.Core.Path.{◌≡◌, refl, sym, ap, ◌∙◌}
pub use mathlib.Core.Logic.{◌≢◌, ◌↔◌, ◌⊎◌, inl, inr}
pub use mathlib.Core.Bool.{Bool, true, false, not, ◌&&◌, ◌||◌}
pub use mathlib.Core.Option.{Option, none, some}
pub use mathlib.Core.List.{List, [], ◌∷◌, ◌++◌, map, append-nil, append_assoc}
pub use native.Mathlib.Omega.{arith}
