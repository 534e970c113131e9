-- ===== src/Common/Xor.antt =====
-- Exclusive or of binary digits: its bound, and that it takes itself back.
use mathlib.Core.Path.{◌≡◌, refl, ◌∙◌}
use Prim.Native.Nat.{
  ℕ, zero, suc, ◌+◌, ◌*◌, ◌/◌, ◌%◌, ◌^◌, ◌<◌, ◌≤◌, digits, differ, bit_xor, bit_xor-bitwise,
}
use native.Mathlib.Omega.{arith}
use native.Mathlib.Nat.{pow-suc}

-- The exclusive or of `a` and `b`, with at most `n` digits of `a` to go.
xor_digits : ℕ → ℕ → ℕ → ℕ
xor_digits n a b = digits (λ b. b) differ n a b

differ_self : (x : ℕ) → differ x x ≡ 0
differ_self zero = refl
differ_self (suc x) = differ_self x

differ-lt : (x y : ℕ) → x < 2 → y < 2 → differ x y < 2
differ-lt zero y hx hy = hy
differ-lt (suc zero) zero hx hy = hx
differ-lt (suc zero) (suc zero) hx hy = omega arith
differ-lt (suc zero) (suc (suc y)) hx hy = omega arith
differ-lt (suc (suc x)) y hx hy = omega arith

differ_twice : (x y : ℕ) → x < 2 → y < 2 → differ (differ x y) y ≡ x
differ_twice zero y hx hy = differ_self y
differ_twice (suc zero) zero hx hy = refl
differ_twice (suc zero) (suc zero) hx hy = refl
differ_twice (suc zero) (suc (suc y)) hx hy = omega arith
differ_twice (suc (suc x)) y hx hy = omega arith

differ_zero : (x y : ℕ) → x < 2 → y < 2 → differ x y ≡ 0 → x ≡ y
differ_zero zero y hx hy e = omega arith
differ_zero (suc zero) zero hx hy e = omega arith
differ_zero (suc zero) (suc zero) hx hy e = refl
differ_zero (suc zero) (suc (suc y)) hx hy e = omega arith
differ_zero (suc (suc x)) y hx hy e = omega arith

xor_digits_self : (n a : ℕ) → a ≤ n → xor_digits n a a ≡ 0
unfolding xor_digits
xor_digits_self zero a h = omega arith
xor_digits_self (suc n) zero h = refl
xor_digits_self (suc n) (suc a) h =
    rw (xor_digits_self n (suc a / 2) (omega arith), differ_self (suc a % 2)) refl

xor_digits-zero : (m b : ℕ) → xor_digits m 0 b ≡ b
unfolding xor_digits
xor_digits-zero zero b = refl
xor_digits-zero (suc m) b = refl

-- The lowest digit and the rest.
xor_digits_halves :
    (m x b : ℕ)
    → 0 < x
    → xor_digits (suc m) x b ≡ xor_digits m (x / 2) (b / 2) * 2 + differ (x % 2) (b % 2)
unfolding xor_digits
xor_digits_halves m zero b h = omega arith
xor_digits_halves m (suc x) b h = refl

-- The step of the next lemma. `q` and `r` are the digits that the first exclusive or gave.
twice_positive :
    (m a b q r : ℕ)
    → 0 < q * 2 + r
    → q * 2 + r ≤ m
    → differ (a % 2) (b % 2) ≡ r
    → ((k : ℕ) → q ≤ k → xor_digits k q (b / 2) ≡ a / 2)
    → xor_digits m (q * 2 + r) b ≡ a
twice_positive zero a b q r p h e ih = omega arith
twice_positive (suc m) a b q r p h e ih =
    let low : r < 2 = rw (← e) (differ-lt (a % 2) (b % 2) (omega arith) (omega arith)) in
    let halved : (q * 2 + r) / 2 ≡ q = omega arith in
    let digit : (q * 2 + r) % 2 ≡ r = omega arith in
    let same : differ r (b % 2) ≡ a % 2 =
      rw (← e) (differ_twice (a % 2) (b % 2) (omega arith) (omega arith)) in
    xor_digits_halves m (q * 2 + r) b p ∙ rw (halved, digit, same, ih m (omega arith)) (omega arith)

twice_step :
    (m a b q r : ℕ)
    → q * 2 + r ≤ m
    → differ (a % 2) (b % 2) ≡ r
    → ((k : ℕ) → q ≤ k → xor_digits k q (b / 2) ≡ a / 2)
    → xor_digits m (q * 2 + r) b ≡ a
unfolding xor_digits
twice_step m a b zero zero h e ih =
    let same = differ_zero (a % 2) (b % 2) (omega arith) (omega arith) e in
    let halves : b / 2 ≡ a / 2 = ih 0 (omega arith) in xor_digits-zero m b ∙ omega arith
twice_step m a b zero (suc r) h e ih = twice_positive m a b zero (suc r) (omega arith) h e ih
twice_step m a b (suc q) r h e ih = twice_positive m a b (suc q) r (omega arith) h e ih

-- What is taken twice is gone, whatever the counts of digits, if they are enough.
xor_digits_twice :
    (n m a b : ℕ) → a ≤ n → xor_digits n a b ≤ m → xor_digits m (xor_digits n a b) b ≡ a
unfolding xor_digits
xor_digits_twice zero m zero b h k = xor_digits_self m b k
xor_digits_twice zero m (suc a) b h k = omega arith
xor_digits_twice (suc n) m zero b h k = xor_digits_self m b k
xor_digits_twice (suc n) m (suc a) b h k =
    twice_step m (suc a) b (xor_digits n (suc a / 2) (b / 2)) (differ (suc a % 2) (b % 2)) k refl
      (λ j l. xor_digits_twice n j (suc a / 2) (b / 2) (omega arith) l)

xor_digits-lt : (n w a b : ℕ) → a ≤ n → a < 2 ^ w → b < 2 ^ w → xor_digits n a b < 2 ^ w
unfolding xor_digits
xor_digits-lt zero w a b h ha hb = hb
xor_digits-lt (suc n) w zero b h ha hb = hb
xor_digits-lt (suc n) zero (suc a) b h ha hb = omega arith
xor_digits-lt (suc n) (suc w) (suc a) b h ha hb = omega (
  arith,
  pow-suc 2 w,
  differ-lt (suc a % 2) (b % 2) (omega arith) (omega arith),
  xor_digits-lt n w (suc a / 2) (b / 2) (omega arith) (omega (arith, pow-suc 2 w))
      (omega (arith, pow-suc 2 w)),
)

bit_xor_digits : (a b : ℕ) → bit_xor a b ≡ xor_digits a a b
unfolding xor_digits
bit_xor_digits a b = bit_xor-bitwise a b

pub bit_xor_twice : (a b : ℕ) → bit_xor (bit_xor a b) b ≡ a
bit_xor_twice a b =
    bit_xor_digits (bit_xor a b) b
    ∙ rw (bit_xor_digits a b)
        (xor_digits_twice a (xor_digits a a b) a b (omega arith) (omega arith))

pub bit_xor-lt : (w a b : ℕ) → a < 2 ^ w → b < 2 ^ w → bit_xor a b < 2 ^ w
bit_xor-lt w a b ha hb = rw (bit_xor_digits a b) (xor_digits-lt a w a b (omega arith) ha hb)
