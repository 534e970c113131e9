-- ===== src/Common/Utf8.antt =====
-- `std::str::from_utf8`: whether bytes are well-formed UTF-8 (the Unicode Standard, table 3-7).
use Prim.Native.Nat.{ℕ, zero, suc}
use mathlib.Core.Bool.{Bool, true, false, ◌&&◌}
use mathlib.Core.List.{foldl}
use nendi.Common.Checks.{leb, ltb, ◌==◌, if◌then◌else◌}
use nendi.Common.Words.{Bytes}

-- At a character's first byte; inside one, with `k + 1` bytes to come of which the next lies in
-- `lo..=hi`; or past an error.
pub data Utf8State : Type 0 where
  lead : Utf8State
  more : ℕ → ℕ → ℕ → Utf8State
  bad : Utf8State

within : ℕ → ℕ → ℕ → Bool
within lo hi b = leb lo b && leb b hi

utf8_lead : ℕ → Utf8State
unfolding within
utf8_lead b =
    if ltb b 0x80
    then lead
    else if within 0xc2 0xdf b
    then more 0 0x80 0xbf
    else if b == 0xe0
    then more 1 0xa0 0xbf
    else if b == 0xed
    then more 1 0x80 0x9f
    else if within 0xe1 0xef b
    then more 1 0x80 0xbf
    else if b == 0xf0
    then more 2 0x90 0xbf
    else if within 0xf1 0xf3 b
    then more 2 0x80 0xbf
    else if b == 0xf4
    then more 2 0x80 0x8f
    else bad

utf8_next : Utf8State → ℕ → Utf8State
unfolding utf8_lead
utf8_next lead b = utf8_lead b
utf8_next (more zero lo hi) b = if within lo hi b then lead else bad
utf8_next (more (suc k) lo hi) b = if within lo hi b then more k 0x80 0xbf else bad
utf8_next bad b = bad

ends_clean : Utf8State → Bool
ends_clean lead = true
ends_clean (more _ _ _) = false
ends_clean bad = false

unfoldable pub is_utf8 : Bytes → Bool
unfolding utf8_next ends_clean
is_utf8 bs = ends_clean (foldl utf8_next lead bs)
