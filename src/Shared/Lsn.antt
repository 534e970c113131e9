-- ===== src/Shared/Lsn.antt =====
-- shared/src/lsn/types.rs: log sequence numbers and their two encodings.
pub mod Order
pub mod PgText
mod Tests
use nendi.Common.{
  ℕ, zero, suc, ◌+◌, ◌*◌, ◌-◌, ◌/◌, ◌%◌, ◌^◌, ◌<◌, min, Bool, ◌&&◌, Option, none, some, List, [],
  ◌∷◌, ◌++◌, Bytes, Text, be, from_be, ltb, leb, ◌==◌, if◌then◌else◌, split_once, u32_mod, u64_mod,
}
use nendi.Common.Options.{◌>>=◌}

-- `struct Lsn(pub u64)`.
abbrev pub Lsn : Type 0
Lsn = ℕ

abbrev pub IsLsn : Lsn → Type 0
IsLsn l = l < 2 ^ 64

abbrev pub zero_lsn : Lsn
zero_lsn = 0

abbrev pub max_lsn : Lsn
max_lsn = 2 ^ 64 - 1

unfoldable pub to_be_bytes : Lsn → Bytes
to_be_bytes l = be 8 l

unfoldable pub from_be_bytes : Bytes → Lsn
from_be_bytes bs = from_be bs

unfoldable pub is_ahead_of : Lsn → Lsn → Bool
is_ahead_of l other = ltb other l

unfoldable pub saturating_add : Lsn → ℕ → Lsn
saturating_add l delta = min (l + delta) (2 ^ 64 - 1)

-- The value of a hexadecimal digit, of either case.
hex_value : ℕ → Option ℕ
hex_value c =
    if leb b'0' c && leb c b'9'
    then some (c - b'0')
    else if leb b'A' c && leb c b'F'
    then some (c - b'A' + 10)
    else if leb b'a' c && leb c b'f'
    then some (c - b'a' + 10)
    else none

-- One round of `u32::from_str_radix`: an overflow is an error.
push_digit : ℕ → ℕ → Option ℕ
unfolding hex_value
push_digit acc c = do
  d ← hex_value c
  if ltb (acc * 16 + d) u32_mod then some (acc * 16 + d) else none

parse_digits : ℕ → Text → Option ℕ
unfolding push_digit
parse_digits acc [] = some acc
parse_digits acc (c ∷ cs) = do a ← push_digit acc c; parse_digits a cs

-- `u32::from_str_radix(s, 16)`: one leading `+` is taken, and no digits at all are an error.
from_str_radix : Text → Option ℕ
unfolding parse_digits
from_str_radix [] = none
from_str_radix (c ∷ []) = parse_digits 0 (c ∷ [])
from_str_radix (c ∷ d ∷ cs) =
    if c == b'+' then parse_digits 0 (d ∷ cs) else parse_digits 0 (c ∷ d ∷ cs)

-- `none` is `LsnParseError`, which carries the text that was given.
pub from_pg_str : Text → Option Lsn
unfolding from_str_radix
from_pg_str s = do
  (hi_text, lo_text) ← split_once b'/' s
  hi ← from_str_radix hi_text
  lo ← from_str_radix lo_text
  some (hi * 2 ^ 32 + lo)

hex_digit : ℕ → ℕ
hex_digit d = if ltb d 10 then b'0' + d else b'A' + (d - 10)

-- `{:X}`: no leading zeros. `k + 1` digits are enough below `16 ^ (k + 1)`.
hex_upper : ℕ → ℕ → Text
unfolding hex_digit
hex_upper zero v = hex_digit (v % 16) ∷ []
hex_upper (suc k) v =
    if ltb v 16 then hex_digit v ∷ [] else hex_upper k (v / 16) ++ (hex_digit (v % 16) ∷ [])

-- A `u32` has at most eight digits.
pub to_pg_string : Lsn → Text
unfolding hex_upper
to_pg_string l = hex_upper 7 (l / 2 ^ 32 % u32_mod) ++ (b'/' ∷ hex_upper 7 (l % u32_mod))
