-- ===== src/Common/Words.antt =====
-- Bytes and machine words: big-endian encodings, lexicographic order, wrapping arithmetic.
use Prim.Native.Nat.{ℕ, zero, suc, ◌+◌, ◌*◌, ◌/◌, ◌%◌, ◌^◌, ◌<◌}
use mathlib.Core.Path.{◌≡◌, refl, ap, sym, ◌∙◌}
use mathlib.Core.Logic.{◌↔◌}
use mathlib.Core.Bool.{Bool, true, false, ◌&&◌, ◌||◌}
use mathlib.Core.List.{List, [], ◌∷◌, ◌++◌}
use native.Mathlib.Nat.{pow-suc}
use native.Mathlib.Omega.{arith}
use nendi.Common.Checks.{ltb, ◌==◌}
use nendi.Common.Lists.{length, length-append, All, All-append}

-- `&[u8]` and `Vec<u8>`.
abbrev pub Bytes : Type 0
Bytes = List ℕ

-- A Rust string is the list of its UTF-8 bytes.
abbrev pub Text : Type 0
Text = List ℕ

abbrev pub IsByte : ℕ → Type 0
IsByte b = b < 256

abbrev pub u16_mod : ℕ
u16_mod = 2 ^ 16

abbrev pub u32_mod : ℕ
u32_mod = 2 ^ 32

abbrev pub u64_mod : ℕ
u64_mod = 2 ^ 64

-- Wrapping `u64`/`usize` addition, as in a release build.
abbrev pub add_u64 : ℕ → ℕ → ℕ
add_u64 a b = (a + b) % u64_mod

-- Whether `Vec::with_capacity(n)` gets by without a capacity overflow: the `n` elements, of `size`
-- bytes each, may take up to `isize::MAX` bytes.
abbrev pub fits_capacity : ℕ → ℕ → Bool
fits_capacity size n = ltb (n * size) (2 ^ 63)

-- The last `n` bytes of `v`, most significant first: `to_be_bytes` at width `8 * n`.
unfoldable pub be : ℕ → ℕ → Bytes
be zero v = []
be (suc n) v = be n (v / 256) ++ (v % 256 ∷ [])

from_be_acc : ℕ → Bytes → ℕ
from_be_acc acc [] = acc
from_be_acc acc (b ∷ bs) = from_be_acc (acc * 256 + b) bs

-- `from_be_bytes`.
pub from_be : Bytes → ℕ
unfolding from_be_acc
from_be bs = from_be_acc 0 bs

from_be_acc-snoc :
    (acc : ℕ) (xs : Bytes) (b : ℕ) → from_be_acc acc (xs ++ (b ∷ [])) ≡ from_be_acc acc xs * 256 + b
unfolding from_be_acc
from_be_acc-snoc acc [] b = refl
from_be_acc-snoc acc (x ∷ xs) b = from_be_acc-snoc (acc * 256 + x) xs b

pub length-be : (n v : ℕ) → length (be n v) ≡ n
unfolding be
length-be zero v = refl
length-be (suc n) v =
    omega (arith, length-append (be n (v / 256)) (v % 256 ∷ []), length-be n (v / 256))

pub be-IsByte : (n v : ℕ) → All IsByte (be n v)
unfolding be
be-IsByte zero v = tt
be-IsByte (suc n) v = All-append IsByte (be n (v / 256)) _ (be-IsByte n (v / 256)) (omega arith, tt)

pub from_be-be : (n v : ℕ) → v < 256 ^ n → from_be (be n v) ≡ v
unfolding be from_be
from_be-be zero v h = omega arith
from_be-be (suc n) v h = omega (
  arith,
  from_be_acc-snoc 0 (be n (v / 256)) (v % 256),
  from_be-be n (v / 256) (omega (arith, pow-suc 256 n)),
)

-- Lexicographic order, the order of `[u8]`, `str` and of the keys in RocksDB.
unfoldable pub lex_ltb : Bytes → Bytes → Bool
lex_ltb [] [] = false
lex_ltb [] (y ∷ ys) = true
lex_ltb (x ∷ xs) [] = false
lex_ltb (x ∷ xs) (y ∷ ys) = ltb x y || (x == y && lex_ltb xs ys)

unfoldable pub text_eq : Text → Text → Bool
text_eq [] [] = true
text_eq [] (y ∷ ys) = false
text_eq (x ∷ xs) [] = false
text_eq (x ∷ xs) (y ∷ ys) = x == y && text_eq xs ys

pub text_eq_iff : (xs ys : Text) → (text_eq xs ys ≡ true) ↔ (xs ≡ ys)
unfolding text_eq
text_eq_iff [] [] = ((λ _. refl), (λ _. refl))
text_eq_iff [] (y ∷ ys) = ((λ h. cc), (λ h. cc))
text_eq_iff (x ∷ xs) [] = ((λ h. cc), (λ h. cc))
text_eq_iff (x ∷ xs) (y ∷ ys) = ground (arith, text_eq_iff xs ys)

lex-snoc :
    (xs ys : Bytes) (x y : ℕ)
    → length xs ≡ length ys
    → lex_ltb (xs ++ (x ∷ [])) (ys ++ (y ∷ [])) ≡ (lex_ltb xs ys || (text_eq xs ys && ltb x y))
unfolding lex_ltb text_eq
lex-snoc [] [] x y h = ground arith
lex-snoc [] (b ∷ ys) x y h = absurd (omega arith)
lex-snoc (a ∷ xs) [] x y h = absurd (omega arith)
lex-snoc (a ∷ xs) (b ∷ ys) x y h = ground (arith, lex-snoc xs ys x y)

pub be-injective : (n a b : ℕ) → a < 256 ^ n → b < 256 ^ n → be n a ≡ be n b → a ≡ b
be-injective n a b ha hb e = sym (from_be-be n a ha) ∙ ap from_be e ∙ from_be-be n b hb

-- Big-endian bytes of one width are ordered as the numbers are.
pub lex-be : (n a b : ℕ) → a < 256 ^ n → b < 256 ^ n → lex_ltb (be n a) (be n b) ≡ ltb a b
unfolding be lex_ltb
lex-be zero a b ha hb = ground arith
lex-be (suc n) a b ha hb =
    let ha' : a / 256 < 256 ^ n = omega (arith, pow-suc 256 n) in
    let hb' : b / 256 < 256 ^ n = omega (arith, pow-suc 256 n) in
    lex-snoc (be n (a / 256)) (be n (b / 256)) (a % 256) (b % 256)
      (length-be n (a / 256) ∙ sym (length-be n (b / 256)))
    ∙ ground (
      arith,
      lex-be n (a / 256) (b / 256) ha' hb',
      text_eq_iff (be n (a / 256)) (be n (b / 256)),
      be-injective n (a / 256) (b / 256) ha' hb',
      λ (e : a / 256 ≡ b / 256). ap (be n) e,
    )

-- The order of two parts of one width each, the first part first.
pub lex-append :
    (xs ys us vs : Bytes)
    → length xs ≡ length ys
    → lex_ltb (xs ++ us) (ys ++ vs) ≡ (lex_ltb xs ys || (text_eq xs ys && lex_ltb us vs))
unfolding lex_ltb text_eq
lex-append [] [] us vs h = ground arith
lex-append [] (y ∷ ys) us vs h = absurd (omega arith)
lex-append (x ∷ xs) [] us vs h = absurd (omega arith)
lex-append (x ∷ xs) (y ∷ ys) us vs h = ground (arith, lex-append xs ys us vs)

pub text_eq-be : (n a b : ℕ) → a < 256 ^ n → b < 256 ^ n → text_eq (be n a) (be n b) ≡ (a == b)
text_eq-be n a b ha hb =
    ground
      (arith, text_eq_iff (be n a) (be n b), be-injective n a b ha hb, λ (e : a ≡ b). ap (be n) e)
