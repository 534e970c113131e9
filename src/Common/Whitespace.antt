-- ===== src/Common/Whitespace.antt =====
-- What the source uses of `str` where white space and positions count, on the bytes of a string.
use Prim.Native.Nat.{ℕ, zero, suc, ◌-◌}
use mathlib.Core.Bool.{Bool, true, false, ◌&&◌, ◌||◌}
use mathlib.Core.Option.{Option, none, some}
use mathlib.Core.List.{[], ◌∷◌}
use nendi.Common.Checks.{ltb, leb, ◌==◌, if◌then◌else◌}
use nendi.Common.Lists.{length, drop}
use nendi.Common.Words.{Text}
use nendi.Common.Strings.{starts_with}
use nendi.Common.Options.{map_option}

white_2 : ℕ → ℕ → Bool
white_2 a b = a == 0xc2 && (b == 0x85 || b == 0xa0)

-- U+1680, U+2000 to U+200A, U+2028, U+2029, U+202F, U+205F, U+3000.
white_3 : ℕ → ℕ → ℕ → Bool
white_3 a b c =
    (a == 0xe1 && (b == 0x9a && c == 0x80))
    || ((a == 0xe2
          && (b == 0x80 && ((leb 0x80 c && leb c 0x8a) || (c == 0xa8 || (c == 0xa9 || c == 0xaf)))))
        || ((a == 0xe2 && (b == 0x81 && c == 0x9f)) || (a == 0xe3 && (b == 0x80 && c == 0x80))))

-- How many bytes of a white space character a text begins with.
unfoldable pub white_len : Text → ℕ
unfolding white_2 white_3
white_len [] = 0
white_len (a ∷ s) = if (leb 9 a && leb a 13) || a == 32 then 1 else elim s [
  | [] ↦ 0
  | b ∷ t ↦ if white_2 a b then 2 else elim t [ [] ↦ 0 | c ∷ _ ↦ if white_3 a b c then 3 else 0 ]
]

-- `trim_start`; the first `k` bytes are of a character that is skipped.
unfoldable pub skip_white : ℕ → Text → Text
skip_white k [] = []
skip_white (suc k) (c ∷ s) = skip_white k s
skip_white zero (c ∷ s) =
    let rest = skip_white (white_len (c ∷ s) - 1) s in
    if white_len (c ∷ s) == 0 then c ∷ s else rest

unfoldable pub take_word : Text → Text
take_word [] = []
take_word (c ∷ s) = let rest = take_word s in if white_len (c ∷ s) == 0 then c ∷ rest else []

nonempty_word : Text → Option Text
nonempty_word [] = none
nonempty_word (c ∷ s) = some (take_word (c ∷ s))

-- `split_whitespace().next()`.
unfoldable pub first_word : Text → Option Text
unfolding nonempty_word
first_word s = nonempty_word (skip_white 0 s)

is_nil : Text → Bool
is_nil [] = true
is_nil (_ ∷ _) = false

unfoldable pub trim_end : Text → Text
unfolding is_nil
trim_end [] = []
trim_end (c ∷ s) = if is_nil (skip_white 0 (c ∷ s)) then [] else c ∷ trim_end s

unfoldable pub trim : Text → Text
trim s = trim_end (skip_white 0 s)

all_are : ℕ → Text → Bool
all_are c [] = true
all_are c (x ∷ s) = x == c && all_are c s

-- `trim_end_matches` of an ASCII character.
unfoldable pub trim_end_matches : ℕ → Text → Text
unfolding all_are
trim_end_matches c [] = []
trim_end_matches c (x ∷ s) = if all_are c (x ∷ s) then [] else x ∷ trim_end_matches c s

unfoldable pub find : Text → Text → Option ℕ
find [] p = if starts_with [] p then some 0 else none
find (c ∷ s) p = if starts_with (c ∷ s) p then some 0 else map_option suc (find s p)

-- Not inside a character.
unfoldable pub is_boundary : Text → Bool
is_boundary [] = true
is_boundary (b ∷ _) = ltb b 0x80 || leb 0xc0 b

-- `&s[i..]`; `none` is the panic.
unfoldable pub str_from : ℕ → Text → Option Text
str_from i s = if leb i (length s) && is_boundary (drop i s) then some (drop i s) else none
