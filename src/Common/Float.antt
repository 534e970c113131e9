-- ===== src/Common/Float.antt =====
-- Natural numbers as `f64`: what has 53 binary digits, and rounding to it.
use Prim.Native.Nat.{ℕ, zero, suc, ◌+◌, ◌*◌, ◌-◌, ◌/◌, ◌%◌, ◌^◌, ◌<◌, ◌≤◌}
use mathlib.Core.Path.{◌≡◌, refl, sym, ◌∙◌}
use mathlib.Core.Bool.{true}
use mathlib.Core.Logic.{◌⊎◌, inl, inr}
use native.Mathlib.Nat.{div-add-mod', mod-lt, pow-suc}
use native.Mathlib.Omega.{arith}
use nendi.Common.Checks.{ltb→lt, ltb, ◌==◌, if◌then◌else◌, Bool-cases}

-- The least of `p`, `2 * p`, `4 * p` and so on of which `n` has less than 2 ^ 53, on fuel for the
-- doublings.
unit_from : ℕ → ℕ → ℕ → ℕ
unit_from zero p n = p
unit_from (suc fuel) p n = if ltb n (2 ^ 53 * p) then p else unit_from fuel (2 * p) n

-- The nearest multiple of `p`, between two the even one.
nearest_multiple : ℕ → ℕ → ℕ
nearest_multiple p n =
    let down = n / p * p in
    if ltb (n % p * 2) p
    then down
    else if ltb p (n % p * 2)
    then down + p
    else if n / p % 2 == 0
    then down
    else down + p

-- The nearest number with 53 binary digits, between two the even one: `as f64`, and the rounding of a
-- product. 128 doublings are enough below 2 ^ 181.
unfoldable pub to_f64 : ℕ → ℕ
unfolding unit_from nearest_multiple
to_f64 n = nearest_multiple (unit_from 128 1 n) n

unit_from-le : (fuel p n : ℕ) → (unit_from fuel p n ≡ p) ⊎ (2 ^ 52 * unit_from fuel p n ≤ n)
unfolding unit_from
unit_from-le zero p n = inl refl
unit_from-le (suc fuel) p n = elim (Bool-cases (ltb n (2 ^ 53 * p))) [
  | inl small ↦ rw small (inl refl)
  | inr large ↦ rw large (elim (unit_from-le fuel (2 * p) n) [
    | inl same ↦ inr (rw same (ground arith))
    | inr low ↦ inr low
  ])
]

unit_from_positive : (fuel p n : ℕ) → 0 < p → 0 < unit_from fuel p n
unfolding unit_from
unit_from_positive zero p n h = h
unit_from_positive (suc fuel) p n h = elim (Bool-cases (ltb n (2 ^ 53 * p))) [
  | inl small ↦ rw small h
  | inr large ↦ rw large (unit_from_positive fuel (2 * p) n (omega arith))
]

-- Half a multiple is the most that rounding is off.
nearest_multiple-near :
    (p n : ℕ)
    → 0 < p
    → (nearest_multiple p n * 2 ≤ n * 2 + p) × (n * 2 ≤ nearest_multiple p n * 2 + p)
unfolding nearest_multiple
nearest_multiple-near p n h =
    let whole = div-add-mod' n p in let rest = mod-lt n h in ground (arith, whole, rest)

-- Rounding is off by one part of 2 ^ 53 at most.
pub to_f64-near :
    (n : ℕ) → (2 ^ 53 * to_f64 n ≤ (2 ^ 53 + 1) * n) × ((2 ^ 53 - 1) * n ≤ 2 ^ 53 * to_f64 n)
unfolding to_f64
to_f64-near n =
    let u = unit_from 128 1 n in
    let (above, below) = nearest_multiple-near u n (unit_from_positive 128 1 n (omega arith)) in
    elim (unit_from-le 128 1 n) [
      | inl one ↦ (omega arith, omega arith)
      | inr low ↦ (omega arith, omega arith)
    ]

-- Numbers of at most 53 digits are kept.
pub to_f64-small : (n : ℕ) → n < 2 ^ 53 → to_f64 n ≡ n
unfolding to_f64 unit_from
to_f64-small n h =
    let small : ltb n (2 ^ 53 * 1) ≡ true = ground arith in
    let (above, below) = nearest_multiple-near 1 n (omega arith) in rw small (omega arith)

-- A unit divides what `p` and `k` doublings make, and is no more than that, if it is enough.
unit_from-divides :
    (fuel k p n : ℕ)
    → k ≤ fuel
    → n < 2 ^ 53 * (p * 2 ^ k)
    → (w : ℕ) × (unit_from fuel p n * w ≡ p * 2 ^ k) × (n < 2 ^ 53 * unit_from fuel p n)
unfolding unit_from
unit_from-divides zero zero p n le h = (1, omega arith, omega arith)
unit_from-divides zero (suc k) p n le h = absurd (omega arith)
unit_from-divides (suc fuel) zero p n le h =
    let small : ltb n (2 ^ 53 * p) ≡ true = ground arith in rw small (1, omega arith, omega arith)
unit_from-divides (suc fuel) (suc k) p n le h =
    let same : 2 * p * 2 ^ k ≡ p * 2 ^ suc k = grind (arith, pow-suc 2 k) in
    let more = unit_from-divides fuel k (2 * p) n (omega arith) (rw same h) in
    elim (Bool-cases (ltb n (2 ^ 53 * p))) [
      | inl small ↦ rw small (2 ^ suc k, refl, ltb→lt n (2 ^ 53 * p) small)
      | inr large ↦ rw large (rw same at more)
    ]

times_le : (a b p : ℕ) → a ≤ b → a * p ≤ b * p
times_le a b p h = grind arith

times_suc : (q p : ℕ) → suc q * p ≡ q * p + p
times_suc q p = grind arith

-- Two multiples of `p` that are less than `2 * p` apart, and not equal.
next_multiple : (c q s p : ℕ) → c * p ≡ q * p + s → 0 < s → s < 2 * p → c * p ≡ q * p + p
next_multiple c q s p e positive small = elim (Bool-cases (ltb q c)) [
  | inr below ↦ absurd (omega (arith, times_le c q p (ground arith)))
  | inl above ↦ elim (Bool-cases (ltb (suc q) c)) [
    | inl far ↦ absurd (
        omega
          (arith, times_le (suc (suc q)) c p (ground arith), times_suc (suc q) p, times_suc q p))
    | inr near ↦ let same : c ≡ suc q = ground arith in rw same (times_suc q p)
  ]
]

-- A number that is a little below a multiple is rounded to it.
nearest_multiple-below :
    (p c d n : ℕ) → n + d ≡ c * p → 0 < d → 2 * d < p → nearest_multiple p n ≡ c * p
unfolding nearest_multiple
nearest_multiple-below p c d n e positive small =
    let whole = div-add-mod' n p in
    let rest = mod-lt n {m = p} (omega arith) in
    let next : c * p ≡ n / p * p + p =
      next_multiple c (n / p) (n % p + d) p (omega arith) (omega arith) (omega arith) in
    ground (arith, whole, rest, next)

scaled : (v u w m : ℕ) → u * w ≡ 1 * m → v * m ≡ v * w * u
scaled v u w m e = grind arith

-- Rounding goes up to a multiple of 2 ^ 53 from a little below it.
pub to_f64-below :
    (v d n : ℕ) → n + d ≡ v * 2 ^ 53 → v < 2 ^ 53 → 0 < d → 3 * d ≤ v → to_f64 n ≡ v * 2 ^ 53
unfolding to_f64
to_f64-below v d n e small positive close =
    let u : ℕ = unit_from 128 1 n in
    let (w, divides, enough) = unit_from-divides 128 53 1 n (omega arith) (omega arith) in
    let whole : v * 2 ^ 53 ≡ v * w * u = scaled v u w (2 ^ 53) divides in
    let larger : v ≤ u = omega (arith, enough) in
    nearest_multiple-below u (v * w) d n (e ∙ whole) positive (omega arith) ∙ sym whole
