-- ===== src/Common/Digits.antt =====
-- Numbers and bytes as text: `{}` and `{:02x}`.
use Prim.Native.Nat.{ℕ, zero, suc, ◌+◌, ◌*◌, ◌-◌, ◌/◌, ◌%◌, ◌^◌, ◌<◌}
use mathlib.Core.List.{[], ◌∷◌, ◌++◌}
use mathlib.Core.Path.{◌≡◌, refl, ◌∙◌}
use mathlib.Core.Logic.{inl, inr}
use native.Mathlib.Nat.{pow-suc}
use native.Mathlib.Omega.{arith}
use nendi.Common.Checks.{ltb, ltb→lt, Bool-cases, if◌then◌else◌}
use nendi.Common.Words.{Bytes, Text}

-- No leading zeros; `k + 1` digits are enough below `10 ^ (k + 1)`.
unfoldable pub decimal : ℕ → ℕ → Text
decimal zero v = (b'0' + v % 10) ∷ []
decimal (suc k) v =
    if ltb v 10 then (b'0' + v) ∷ [] else decimal k (v / 10) ++ ((b'0' + v % 10) ∷ [])

hex_lower : ℕ → ℕ
hex_lower d = if ltb d 10 then b'0' + d else b'a' + (d - 10)

-- `{:x}`: no leading zeros; `k + 1` digits are enough below `16 ^ (k + 1)`.
unfoldable pub hexadecimal : ℕ → ℕ → Text
unfolding hex_lower
hexadecimal zero v = hex_lower (v % 16) ∷ []
hexadecimal (suc k) v =
    if ltb v 16 then hex_lower v ∷ [] else hexadecimal k (v / 16) ++ (hex_lower (v % 16) ∷ [])

hex_value : ℕ → ℕ
hex_value c = if ltb c b'a' then c - b'0' else c - b'a' + 10

read_hex_acc : ℕ → Text → ℕ
unfolding hex_value
read_hex_acc acc [] = acc
read_hex_acc acc (c ∷ cs) = read_hex_acc (acc * 16 + hex_value c) cs

-- The number that lower-case hexadecimal digits stand for.
pub read_hex : Text → ℕ
unfolding read_hex_acc
read_hex s = read_hex_acc 0 s

hex_value-hex_lower : (d : ℕ) → d < 16 → hex_value (hex_lower d) ≡ d
unfolding hex_value hex_lower
hex_value-hex_lower d h = ground arith

read_hex_acc-snoc :
    (acc : ℕ) (xs : Text) (c : ℕ)
    → read_hex_acc acc (xs ++ (c ∷ [])) ≡ read_hex_acc acc xs * 16 + hex_value c
unfolding read_hex_acc
read_hex_acc-snoc acc [] c = refl
read_hex_acc-snoc acc (x ∷ xs) c = read_hex_acc-snoc (acc * 16 + hex_value x) xs c

-- What is printed in hexadecimal is read as that number.
pub read_hex-hexadecimal : (k v : ℕ) → v < 16 ^ suc k → read_hex (hexadecimal k v) ≡ v
unfolding read_hex read_hex_acc hexadecimal
read_hex-hexadecimal zero v h = omega (arith, hex_value-hex_lower (v % 16) (omega arith))
read_hex-hexadecimal (suc k) v h = elim (Bool-cases (ltb v 16)) [
  | inl e ↦ rw e (omega (arith, hex_value-hex_lower v (ltb→lt v 16 e)))
  | inr e ↦ rw e (
      read_hex_acc-snoc 0 (hexadecimal k (v / 16)) (hex_lower (v % 16))
      ∙ omega (
        arith,
        pow-suc 16 (suc k),
        read_hex-hexadecimal k (v / 16) (omega (arith, pow-suc 16 (suc k))),
        hex_value-hex_lower (v % 16) (omega arith),
      ))
]

-- Two digits for each byte.
unfoldable pub hex_encode : Bytes → Text
unfolding hex_lower
hex_encode [] = []
hex_encode (b ∷ bs) = hex_lower (b / 16) ∷ (hex_lower (b % 16) ∷ hex_encode bs)
