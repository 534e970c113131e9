-- ===== src/Common/Cursor/Safe.antt =====
-- Readers that do not panic.
use nendi.Common.Cursor.{
  Outcome, ok, err, panic, Reader, ◌>>=◌, ◌>>◌, pure, fail, ensure, slice, index, word, text,
  ensure_ok, ensure_err, slice_ok,
}
use Prim.Native.Nat.{ℕ, ◌+◌, ◌≤◌}
use mathlib.Core.Path.{refl}
use mathlib.Core.Logic.{◌≢◌}
use mathlib.Core.Bool.{Bool, true, false}
use mathlib.Core.List.{[], ◌∷◌}
use native.Mathlib.Omega.{arith}
use nendi.Common.Checks.{ltb→lt, if◌then◌else◌, Bool-cases, ltb}
use nendi.Common.Lists.{length, length-drop, drop, take}
use nendi.Common.Words.{from_be, Bytes, Text}
use nendi.Common.Utf8.{is_utf8}
use mathlib.Core.Logic.{inl, inr}

-- The reader does not panic on an input of `n` bytes at least.
pub record Needs {E A : Type 0} (n : ℕ) (m : Reader E A) : Type 0 where
  pub safe : (s : Bytes) → n ≤ length s → m s ≢ panic

-- On no input.
abbrev pub IsSafe : {E A : Type 0} → Reader E A → Type 0
IsSafe m = Needs 0 m

pub IsSafe-pure : {E A : Type 0} (a : A) → IsSafe {E = E} (pure a)
IsSafe-pure a = record { safe = λ s h e. cc }

pub IsSafe-fail : {E A : Type 0} (x : E) → IsSafe {A = A} (fail x)
IsSafe-fail x = record { safe = λ s h e. cc }

bind_result :
    {E A B : Type 0} (r : Outcome E (A × Bytes)) (f : A → Reader E B)
    → r ≢ panic
    → ((a : A) → IsSafe (f a))
    → elim r as (λ _. Outcome E (B × Bytes)) [ ok (a, s') ↦ f a s' | err e ↦ err e | panic ↦ panic ]
      ≢ panic
bind_result (ok (a, s)) f hr hf = (hf a).safe s (omega arith)
bind_result (err e) f hr hf = λ p. cc
bind_result panic f hr hf = absurd (hr refl)

pub Needs-bind :
    {E A B : Type 0} {n : ℕ} {m : Reader E A} {f : A → Reader E B}
    → Needs n m
    → ((a : A) → IsSafe (f a))
    → Needs n (m >>= f)
Needs-bind {m} {f} hm hf = record { safe = λ s h. bind_result (m s) f (hm.safe s h) hf }

pub Needs-if :
    {E A : Type 0} {n : ℕ} (b : Bool) {m k : Reader E A}
    → Needs n m
    → Needs n k
    → Needs n (if b then m else k)
Needs-if true hm hk = hm
Needs-if false hm hk = hk

-- Behind a guard there are as many bytes as it asked for.
pub Needs-ensure :
    {E A : Type 0} (n : ℕ) (e : E) {m : Reader E A} → Needs n m → IsSafe (ensure n e >> m)
Needs-ensure n e {m} hm = record {
  safe = λ s h. elim (Bool-cases (ltb (length s) n)) [
    | inl few ↦ rw (ensure_err n e s (ltb→lt _ _ few), ◌>>=◌) (λ p. cc)
    | inr enough ↦ rw (ensure_ok n e s (ground arith), ◌>>=◌) (hm.safe s (ground arith))
  ];
}

-- A slice takes the bytes that it needs, and leaves the others to what follows.
pub Needs-slice :
    {E A : Type 0} (n k : ℕ) {f : Bytes → Reader E A}
    → ((v : Bytes) → Needs k (f v))
    → Needs (n + k) (slice n >>= f)
Needs-slice n k {f} hf = record {
  safe = λ s h.
      rw (slice_ok n s (omega arith), ◌>>=◌)
        ((hf (take n s)).safe (drop n s) (omega (arith, length-drop n s)));
}

pub Needs-word :
    {E A : Type 0} (n k : ℕ) {f : ℕ → Reader E A}
    → ((v : ℕ) → Needs k (f v))
    → Needs (n + k) (word n >>= f)
unfolding word
Needs-word n k {f} hf = record {
  safe = λ s h.
      rw (slice_ok n s (omega arith), ◌>>=◌)
        ((hf (from_be (take n s))).safe (drop n s) (omega (arith, length-drop n s)));
}

pub Needs-text :
    {E A : Type 0} (e : E) (n k : ℕ) {f : Text → Reader E A}
    → ((v : Text) → Needs k (f v))
    → Needs (n + k) (text e n >>= f)
unfolding text
Needs-text e n k {f} hf = record {
  safe = λ s h.
      rw (slice_ok n s (omega arith), ◌>>=◌)
        (elim (Bool-cases (is_utf8 (take n s))) [
          | inl good ↦
              rw (good, if◌then◌else◌)
                ((hf (take n s)).safe (drop n s) (omega (arith, length-drop n s)))
          | inr bad ↦ rw (bad, if◌then◌else◌) (λ p. cc)
        ]);
}

pub Needs-index :
    {E A : Type 0} (k : ℕ) {f : ℕ → Reader E A}
    → ((v : ℕ) → Needs k (f v))
    → Needs (1 + k) (index >>= f)
Needs-index k {f} hf = record { safe = by_input }
  where
    by_input : (s : Bytes) → 1 + k ≤ length s → (index >>= f) s ≢ panic
    by_input [] h = absurd (omega arith)
    by_input (b ∷ s) h = unfold index in (hf b).safe s (omega arith)

pub Needs-word_last : {E : Type 0} (n : ℕ) → Needs {E = E} n (word n)
unfolding word
Needs-word_last n = record { safe = λ s h. rw (slice_ok n s h, ◌>>=◌) (λ p. cc) }

pub Needs-index_last : {E : Type 0} → Needs {E = E} 1 index
Needs-index_last {E} = record { safe = by_input }
  where
    by_input : (s : Bytes) → 1 ≤ length s → index {E = E} s ≢ panic
    by_input [] h = absurd (omega arith)
    by_input (b ∷ s) h = unfold index in λ p. cc

-- A reader that needs fewer bytes needs no more.
pub Needs-weaken : {E A : Type 0} {n : ℕ} (k : ℕ) {m : Reader E A} → n ≤ k → Needs n m → Needs k m
Needs-weaken k h hm = record { safe = λ s e. hm.safe s (omega arith) }
