-- ===== src/Core/Storage/Wal/Names.antt =====
-- The segments' file names.
use nendi.Common.{
  ℕ, zero, suc, ◌+◌, ◌-◌, ◌*◌, ◌/◌, ◌%◌, ◌^◌, ◌<◌, ◌≡◌, refl, sym, ap, ◌∙◌, arith, Bool-cases, inl,
  inr, [], ◌∷◌, ◌++◌, Text, codes, drop, length, ltb, ltb→lt, decimal,
}
use native.Mathlib.Nat.{pow-suc}
use nendi.Core.Storage.Wal.{zeros, padded, segment_name}

-- The value of a text's characters as decimal digits.
value : ℕ → Text → ℕ
value acc [] = acc
value acc (c ∷ s) = value (acc * 10 + (c - b'0')) s

value-append : (acc : ℕ) (xs ys : Text) → value acc (xs ++ ys) ≡ value (value acc xs) ys
unfolding value
value-append acc [] ys = refl
value-append acc (x ∷ xs) ys = value-append (acc * 10 + (x - b'0')) xs ys

value-decimal : (k v : ℕ) → v < 10 ^ suc k → value 0 (decimal k v) ≡ v
unfolding decimal value
value-decimal zero v h = omega arith
value-decimal (suc k) v h = elim (Bool-cases (ltb v 10)) [
  | inl small ↦ rw small (omega (arith, ltb→lt v 10 small))
  | inr large ↦ rw large (
      value-append 0 (decimal k (v / 10)) ((b'0' + v % 10) ∷ [])
      ∙ omega (arith, value-decimal k (v / 10) (omega (arith, pow-suc 10 (suc k)))))
]

value-zeros : (n : ℕ) (s : Text) → value 0 (zeros n ++ s) ≡ value 0 s
unfolding zeros value
value-zeros zero s = refl
value-zeros (suc n) s = value-zeros n s

value-padded : (k : ℕ) → k < 2 ^ 64 → value 0 (padded k) ≡ k
unfolding padded
value-padded k h =
    value-zeros (8 - length (decimal 19 k)) (decimal 19 k) ∙ value-decimal 19 k (omega arith)

-- With what stands behind the number.
value-suffix : (k : ℕ) → k < 2 ^ 64 → value 0 (padded k ++ codes ".log") ≡ k * 10000 + 6685
unfolding value
value-suffix k h = value-append 0 (padded k) (codes ".log") ∙ rw (value-padded k h) (omega arith)

-- Two segments below 2 ^ 64 have two names.
pub segment_name_injective :
    (k j : ℕ) → k < 2 ^ 64 → j < 2 ^ 64 → segment_name k ≡ segment_name j → k ≡ j
unfolding segment_name
segment_name_injective k j hk hj same =
    let rest : padded k ++ codes ".log" ≡ padded j ++ codes ".log" = ap (drop 4) same in
    let values : k * 10000 + 6685 ≡ j * 10000 + 6685 =
      sym (value-suffix k hk) ∙ ap (value 0) rest ∙ value-suffix j hj in
    omega arith
