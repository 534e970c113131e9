-- ===== src/Common/Cursor.antt =====
-- Reading a byte slice through a cursor, with Rust's errors and panics as values.
-- A pair `(data, pos)` of the source is the list of the bytes from `pos` on, so that
-- `pos + n > data.len()` reads: fewer than `n` bytes are left.
pub mod Safe
pub mod Results
use Prim.Native.Nat.{◌≤◌, ℕ, ◌<◌, ◌^◌}
use mathlib.Core.Path.{◌≡◌}
use mathlib.Core.Bool.{true}
use mathlib.Core.List.{[], ◌∷◌, ◌++◌}
use native.Mathlib.Omega.{arith}
use nendi.Common.Checks.{le→leb, lt→ltb, le→not_ltb, leb, ltb, if◌then◌else◌}
use nendi.Common.Lists.{length, take, drop, take-append, drop-append, length-append}
use nendi.Common.Words.{Bytes, Text, from_be, be, length-be, from_be-be}
use nendi.Common.Utf8.{is_utf8}

-- `Result<A, E>` of a function that may also panic.
pub data Outcome {ℓ κ} (E : Type ℓ) (A : Type κ) : Type (ℓ ⊔ κ) where
  ok : A → Outcome E A
  err : E → Outcome E A
  panic : Outcome E A

abbrev pub Reader : Type 0 → Type 0 → Type 0
Reader E A = Bytes → Outcome E (A × Bytes)

infixl 5 ◌>>=◌ ◌>>◌
abbrev pub ◌>>=◌ : {E A B : Type 0} → Reader E A → (A → Reader E B) → Reader E B
◌>>=◌ m f s = elim (m s) [ ok (a, s') ↦ f a s' | err e ↦ err e | panic ↦ panic ]

abbrev pub ◌>>◌ : {E A B : Type 0} → Reader E A → Reader E B → Reader E B
m >> k = m >>= λ _. k

abbrev pub pure : {E A : Type 0} → A → Reader E A
pure a s = ok (a, s)

abbrev pub fail : {E A : Type 0} → E → Reader E A
fail e s = err e

-- `&data[pos..pos + n]`, and `pos += n`: a range past the end panics.
unfoldable pub slice : {E : Type 0} → ℕ → Reader E Bytes
slice n s = if leb n (length s) then ok (take n s, drop n s) else panic

-- A guard on the number of bytes left.
unfoldable pub ensure : {E : Type 0} → ℕ → E → Reader E (Unit {0})
ensure n e s = if ltb (length s) n then err e else ok (tt, s)

-- `data[pos]`, and `pos += 1`.
unfoldable pub index : {E : Type 0} → Reader E ℕ
index [] = panic
index (b ∷ s) = ok (b, s)

-- An unsigned word of `n` bytes, big-endian.
unfoldable pub word : {E : Type 0} → ℕ → Reader E ℕ
word n = do bs ← slice n; pure (from_be bs)

-- `n` bytes that have to be UTF-8.
unfoldable pub text : {E : Type 0} → E → ℕ → Reader E Text
text e n = do bs ← slice n; if is_utf8 bs then pure bs else fail e

pub slice-append :
    {E : Type 0} (n : ℕ) (xs rest : Bytes)
    → length xs ≡ n
    → slice {E = E} n (xs ++ rest) ≡ ok (xs, rest)
unfolding slice
slice-append n xs rest h =
    rw (← h) (ground (arith, length-append xs rest, take-append xs rest, drop-append xs rest))

pub slice_short : {E : Type 0} (n : ℕ) (s : Bytes) → length s < n → slice {E = E} n s ≡ panic
unfolding slice
slice_short n s h = ground arith

pub word-be :
    {E : Type 0} (n v : ℕ) (rest : Bytes)
    → v < 256 ^ n
    → word {E = E} n (be n v ++ rest) ≡ ok (v, rest)
unfolding word
word-be {E} n v rest h =
    rw (slice-append n (be n v) rest (length-be n v), ◌>>=◌) (rw (from_be-be n v h))

pub text-append :
    {E : Type 0} (e : E) (n : ℕ) (xs rest : Bytes)
    → is_utf8 xs ≡ true
    → length xs ≡ n
    → text e n (xs ++ rest) ≡ ok (xs, rest)
unfolding text
text-append e n xs rest u h = rw (slice-append n xs rest h, ◌>>=◌) (rw u)

pub ensure_ok : {E : Type 0} (n : ℕ) (e : E) (s : Bytes) → n ≤ length s → ensure n e s ≡ ok (tt, s)
unfolding ensure
ensure_ok n e s h = rw (le→not_ltb (length s) n h, if◌then◌else◌)

pub ensure_err : {E : Type 0} (n : ℕ) (e : E) (s : Bytes) → length s < n → ensure n e s ≡ err e
unfolding ensure
ensure_err n e s h = rw (lt→ltb (length s) n h, if◌then◌else◌)

pub slice_ok :
    {E : Type 0} (n : ℕ) (s : Bytes) → n ≤ length s → slice {E = E} n s ≡ ok (take n s, drop n s)
unfolding slice
slice_ok n s h = rw (le→leb n (length s) h, if◌then◌else◌)

-- Two readers in a row, taken as one: a law about both then serves in the middle of a `do` block.
pub bind_ok :
    {E A B C : Type 0} (m : Reader E A) (f : A → Reader E B) (k : B → Reader E C) (s : Bytes)
    {b : B} {rest : Bytes}
    → (m >>= f) s ≡ ok (b, rest)
    → (m >>= λ a. f a >>= k) s ≡ k b rest
bind_ok {E} {A} {B} {C} m f k s {b} {rest} h = by_result (m s) h
  where
    by_result :
        (r : Outcome E (A × Bytes))
        → elim r as (λ _. Outcome E (B × Bytes)) [
          | ok (a, t) ↦ f a t
          | err e ↦ err e
          | panic ↦ panic
        ]
          ≡ ok (b, rest)
        → elim r as (λ _. Outcome E (C × Bytes)) [
          | ok (a, t) ↦ (f a >>= k) t
          | err e ↦ err e
          | panic ↦ panic
        ]
          ≡ k b rest
    by_result (ok (a, t)) q = rw (q, ◌>>=◌)
    by_result (err e) q = cc
    by_result panic q = cc
