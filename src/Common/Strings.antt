-- ===== src/Common/Strings.antt =====
-- What the source uses of `str`, on the bytes of a string.
use Prim.Native.Nat.{ℕ}
use Prim.Native.Char.{code}
use Prim.Native.String.{String}
use mathlib.Core.Path.{◌≡◌}
use mathlib.Core.Logic.{◌≢◌}
use mathlib.Core.Bool.{Bool, true, false, ◌&&◌, ◌||◌}
use mathlib.Core.Option.{Option, none, some}
use mathlib.Core.List.{[], ◌∷◌, ◌++◌}
use native.Mathlib.Omega.{arith}
use nendi.Common.Checks.{◌==◌, if◌then◌else◌}
use nendi.Common.Lists.{All}
use nendi.Common.Words.{Text}
use nendi.Common.Options.{map_option}
use nendi.Common.Checks.{Option-cases}
use mathlib.Core.Logic.{inl, inr}

-- A literal of the source; all of them are ASCII.
abbrev pub codes : String → Text
codes String.[] = []
codes (String.◌∷◌ c s) = code c ∷ codes s

-- `split_once` at an ASCII character.
unfoldable pub split_once : ℕ → Text → Option (Text × Text)
split_once c [] = none
split_once c (x ∷ xs) =
    if x == c then some ([], xs) else map_option (λ p. (x ∷ p.0, p.1)) (split_once c xs)

pub split_once-append :
    (c : ℕ) (xs ys : Text) → All (λ x. x ≢ c) xs → split_once c (xs ++ (c ∷ ys)) ≡ some (xs, ys)
unfolding split_once
split_once-append c [] ys h = ground arith
split_once-append c (x ∷ xs) ys h = rw (split_once-append c xs ys h.1) (ground (arith, h.0))

-- The two parts and the separator make up the text, and the first part holds no separator.
pub split_once_parts :
    (c : ℕ) (s a b : Text) → split_once c s ≡ some (a, b) → (s ≡ a ++ (c ∷ b)) × All (λ x. x ≢ c) a
unfolding split_once
split_once_parts c [] a b h = cc
split_once_parts c (x ∷ xs) a b h = elim (Option-cases (split_once c xs)) [
  | inl e ↦ ground arith
  | inr ((a', b'), e) ↦ ground (arith, split_once_parts c xs a' b' e)
]

unfoldable pub starts_with : Text → Text → Bool
starts_with xs [] = true
starts_with [] (p ∷ ps) = false
starts_with (x ∷ xs) (p ∷ ps) = x == p && starts_with xs ps

unfoldable pub contains : Text → Text → Bool
unfolding starts_with
contains [] p = starts_with [] p
contains (x ∷ xs) p = starts_with (x ∷ xs) p || contains xs p
