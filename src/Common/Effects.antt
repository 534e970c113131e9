-- ===== src/Common/Effects.antt =====
-- Calls of something outside the program: a server, a file system. Its state is passed on whatever the
-- outcome is.
pub mod Yields
use mathlib.Core.Path.{◌≡◌, refl}
use mathlib.Core.Option.{Option, none, some}
use nendi.Common.Cursor.{Outcome, ok, err, panic}

abbrev pub Io : Type 0 → Type 0 → Type 0 → Type 0
Io S E A = S → Outcome E A × S

infixl 5 ◌>>=◌ ◌>>◌
abbrev pub ◌>>=◌ : {S E A B : Type 0} → Io S E A → (A → Io S E B) → Io S E B
◌>>=◌ m f s = elim ((m s).0) [
  | ok a ↦ f a (m s).1
  | err e ↦ (err e, (m s).1)
  | panic ↦ (panic, (m s).1)
]

abbrev pub ◌>>◌ : {S E A B : Type 0} → Io S E A → Io S E B → Io S E B
m >> k = m >>= λ _. k

abbrev pub pure : {S E A : Type 0} → A → Io S E A
pure a s = (ok a, s)

abbrev pub fail : {S E A : Type 0} → E → Io S E A
fail e s = (err e, s)

abbrev ok_or : {E A : Type 0} → E → Option A → Outcome E A
ok_or e (some a) = ok a
ok_or e none = err e

abbrev ok_or_panic : {E A : Type 0} → Option A → Outcome E A
ok_or_panic (some a) = ok a
ok_or_panic none = panic

-- An answer that may be missing, as an error.
abbrev pub or_fail : {S E A : Type 0} → E → Option A → Io S E A
or_fail e o s = (ok_or e o, s)

-- The same, as a panic.
abbrev pub or_panic : {S E A : Type 0} → Option A → Io S E A
or_panic o s = (ok_or_panic o, s)

-- `?` on a result.
abbrev pub lift : {S E A : Type 0} → Outcome E A → Io S E A
lift r s = (r, s)

-- A property of all outcomes, through a bind: of what follows a result, and of the two ways to stop.
pub bind_rule {ℓ} :
    {S E A B : Type 0} (P : Outcome E B × S → Type ℓ) (m : Io S E A) (f : A → Io S E B) (s : S)
    → ((a : A) → P (f a (m s).1))
    → ((e : E) → P (err e, (m s).1))
    → P (panic, (m s).1)
    → P ((m >>= f) s)
bind_rule {S} {E} {A} {B} P m f s h_ok h_err h_panic = by_outcome (m s).0
  where
    by_outcome :
        (r : Outcome E A)
        → P (elim r as (λ _. Outcome E B × S) [
          | ok a ↦ f a (m s).1
          | err e ↦ (err e, (m s).1)
          | panic ↦ (panic, (m s).1)
        ])
    by_outcome (ok a) = h_ok a
    by_outcome (err e) = h_err e
    by_outcome panic = h_panic

-- What a successful bind has done.
pub bind_done :
    {S E A B : Type 0} (m : Io S E A) (f : A → Io S E B) (s : S) {b : B} {t : S}
    → (m >>= f) s ≡ (ok b, t)
    → (a : A) × (mid : S) × (m s ≡ (ok a, mid)) × (f a mid ≡ (ok b, t))
bind_done {S} {E} {A} {B} m f s {b} {t} h = by_result (m s) h
  where
    by_result :
        (r : Outcome E A × S)
        → elim (r.0) as (λ _. Outcome E B × S) [
          | ok a ↦ f a r.1
          | err e ↦ (err e, r.1)
          | panic ↦ (panic, r.1)
        ]
          ≡ (ok b, t)
        → (a : A) × (mid : S) × (r ≡ (ok a, mid)) × (f a mid ≡ (ok b, t))
    by_result (ok a, mid) q = (a, mid, refl, q)
    by_result (err e, mid) q = cc
    by_result (panic, mid) q = cc
