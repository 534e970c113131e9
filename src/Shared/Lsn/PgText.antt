-- ===== src/Shared/Lsn/PgText.antt =====
-- The `X/Y` text form of an LSN.
use nendi.Common.{
  ℕ, zero, suc, ◌+◌, ◌*◌, ◌/◌, ◌%◌, ◌^◌, ◌<◌, ◌≡◌, ◌≢◌, refl, arith, some, [], ◌∷◌, ◌++◌, ap, ◌∙◌,
  Text, All, All-append, ltb, split_once-append, u32_mod, Bool-cases, ltb→lt, All-map, snoc-ne-nil,
  split_once, Option-cases, inl, inr,
}
use nendi.Common.Options.{◌>>=◌}
use native.Mathlib.Nat.{pow-suc}
use nendi.Shared.Lsn.{
  Lsn, IsLsn, hex_value, push_digit, parse_digits, from_str_radix, from_pg_str, hex_digit,
  hex_upper, to_pg_string,
}

hex_value-hex_digit : (d : ℕ) → d < 16 → hex_value (hex_digit d) ≡ some d
unfolding hex_value hex_digit
hex_value-hex_digit d h = elim (Bool-cases (ltb d 10)) [
  | inl e ↦ rw e (ground arith)
  | inr e ↦ rw e (ground arith)
]

push_digit-hex_digit :
    (acc d : ℕ)
    → d < 16
    → acc * 16 + d < 2 ^ 32
    → push_digit acc (hex_digit d) ≡ some (acc * 16 + d)
unfolding push_digit
push_digit-hex_digit acc d h fits = ground (arith, hex_value-hex_digit d h)

parse_digits-snoc :
    (acc : ℕ) (xs : Text) (c : ℕ)
    → parse_digits acc (xs ++ (c ∷ [])) ≡ (parse_digits acc xs >>= λ a. push_digit a c)
unfolding parse_digits
parse_digits-snoc acc [] c = ground arith
parse_digits-snoc acc (x ∷ xs) c = elim (Option-cases (push_digit acc x)) [
  | inl e ↦ rw e refl
  | inr (a, e) ↦ rw e (parse_digits-snoc a xs c)
]

parse_digits_one : (d : ℕ) → d < 16 → parse_digits 0 (hex_digit d ∷ []) ≡ some d
unfolding parse_digits
parse_digits_one d h = rw (push_digit-hex_digit 0 d h (omega arith)) (ground arith)

parse_digits-hex_upper :
    (k v : ℕ) → v < 16 ^ suc k → v < 2 ^ 32 → parse_digits 0 (hex_upper k v) ≡ some v
unfolding hex_upper
parse_digits-hex_upper zero v h fits =
    let e : v % 16 ≡ v = omega arith in rw e (parse_digits_one v (omega arith))
parse_digits-hex_upper (suc k) v h fits = elim (Bool-cases (ltb v 16)) [
  | inl e ↦ rw e (parse_digits_one v (ltb→lt v 16 e))
  | inr e ↦ rw e (
      parse_digits-snoc 0 (hex_upper k (v / 16)) (hex_digit (v % 16))
      ∙ rw (parse_digits-hex_upper k (v / 16) (omega (arith, pow-suc 16 (suc k))) (omega arith)) (
          push_digit-hex_digit (v / 16) (v % 16) (omega arith) (omega arith)
          ∙ ap some (omega arith)))
]

-- No digit is one of the two signs that `from_str_radix` and `split_once` look for.
abbrev IsPlain : ℕ → Type 0
IsPlain c = (c ≢ b'+') × (c ≢ b'/')

hex_digit-IsPlain : (d : ℕ) → d < 16 → IsPlain (hex_digit d)
unfolding hex_digit
hex_digit-IsPlain d h = ground arith

hex_upper-IsPlain : (k v : ℕ) → All IsPlain (hex_upper k v)
unfolding hex_upper
hex_upper-IsPlain zero v = (hex_digit-IsPlain (v % 16) (omega arith), tt)
hex_upper-IsPlain (suc k) v = elim (Bool-cases (ltb v 16)) [
  | inl e ↦ rw e (hex_digit-IsPlain v (ltb→lt v 16 e), tt)
  | inr e ↦ rw e (
      All-append IsPlain (hex_upper k (v / 16)) _ (hex_upper-IsPlain k (v / 16))
        (hex_digit-IsPlain (v % 16) (omega arith), tt))
]

hex_upper-ne-nil : (k v : ℕ) → hex_upper k v ≢ []
unfolding hex_upper
hex_upper-ne-nil zero v e = cc
hex_upper-ne-nil (suc k) v e =
    ground (arith, snoc-ne-nil (hex_upper k (v / 16)) (hex_digit (v % 16)))

-- Without a sign the digits alone are read.
from_str_radix_plain : (s : Text) → s ≢ [] → All IsPlain s → from_str_radix s ≡ parse_digits 0 s
unfolding from_str_radix
from_str_radix_plain [] h p = absurd (h refl)
from_str_radix_plain (c ∷ []) h p = refl
from_str_radix_plain (c ∷ d ∷ cs) h p = ground (arith, p.0.0)

from_str_radix-hex_upper : (v : ℕ) → v < 2 ^ 32 → from_str_radix (hex_upper 7 v) ≡ some v
from_str_radix-hex_upper v h =
    from_str_radix_plain (hex_upper 7 v) (hex_upper-ne-nil 7 v) (hex_upper-IsPlain 7 v)
    ∙ parse_digits-hex_upper 7 v (omega arith) h

-- Parsing the text that an LSN prints as gives the LSN back.
pub from_pg_str-to_pg_string : (l : Lsn) → IsLsn l → from_pg_str (to_pg_string l) ≡ some l
unfolding from_pg_str to_pg_string
from_pg_str-to_pg_string l h =
    let hi = l / 2 ^ 32 % u32_mod in
    let lo = l % u32_mod in
    rw
      (
        split_once-append b'/' (hex_upper 7 hi) (hex_upper 7 lo)
            (All-map IsPlain (λ x. x ≢ b'/') (λ x p. p.1) _ (hex_upper-IsPlain 7 hi)),
        from_str_radix-hex_upper hi (omega arith),
        from_str_radix-hex_upper lo (omega arith),
      )
      (ap some (omega arith))

push_digit-lt : (acc c : ℕ) {v : ℕ} → push_digit acc c ≡ some v → v < 2 ^ 32
unfolding push_digit
push_digit-lt acc c h = ground arith

parse_digits-lt :
    (acc : ℕ) (s : Text) {v : ℕ} → acc < 2 ^ 32 → parse_digits acc s ≡ some v → v < 2 ^ 32
unfolding parse_digits
parse_digits-lt acc [] h e = ground arith
parse_digits-lt acc (c ∷ cs) h e = elim (Option-cases (push_digit acc c)) [
  | inl q ↦ ground arith
  | inr (a, q) ↦ parse_digits-lt a cs (push_digit-lt acc c q) (rw q at e)
]

from_str_radix-lt : (s : Text) {v : ℕ} → from_str_radix s ≡ some v → v < 2 ^ 32
unfolding from_str_radix
from_str_radix-lt [] e = cc
from_str_radix-lt (c ∷ []) e = parse_digits-lt 0 (c ∷ []) (omega arith) e
from_str_radix-lt (c ∷ d ∷ cs) {v} e =
    ground (arith, parse_digits-lt 0 (d ∷ cs) {v = v}, parse_digits-lt 0 (c ∷ d ∷ cs) {v = v})

-- Whatever text is parsed with success gives an LSN that fits 64 bits.
pub from_pg_str-IsLsn : (s : Text) {l : Lsn} → from_pg_str s ≡ some l → IsLsn l
unfolding from_pg_str
from_pg_str-IsLsn s {l} e = elim (Option-cases (split_once b'/' s)) [
  | inl q ↦ ground arith
  | inr ((a, b), q) ↦ read_halves a b (rw q at e)
]
  where
    read_halves :
        (a b : Text)
        → (from_str_radix a >>= λ hi. from_str_radix b >>= λ lo. some (hi * 2 ^ 32 + lo)) ≡ some l
        → IsLsn l
    read_halves a b e = elim (Option-cases (from_str_radix a)) [
      | inl q ↦ ground arith
      | inr (hi, q) ↦ elim (Option-cases (from_str_radix b)) [
        | inl q' ↦ ground arith
        | inr (lo, q') ↦ ground (arith, from_str_radix-lt a q, from_str_radix-lt b q')
      ]
    ]
