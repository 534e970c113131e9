-- ===== src/Common/Effects/Yields.antt =====
-- What a call returns when it succeeds.
use mathlib.Core.Path.{◌≡◌, refl}
use nendi.Common.Cursor.{Outcome, ok, err, panic}
use nendi.Common.Effects.{Io, ◌>>=◌, pure, fail}

-- Every successful result satisfies `P`.
pub record Yields {S E A : Type 0} (P : A → Type 0) (m : Io S E A) : Type 0 where
  pub holds : (s : S) (a : A) (t : S) → m s ≡ (ok a, t) → P a

pub Yields-pure :
    {S E A : Type 0} {P : A → Type 0} {a : A} → P a → Yields {S = S} {E = E} P (pure a)
Yields-pure {P} h = record { holds = λ s b t q. let e : _ ≡ b = cc in rw (← e) h }

pub Yields-fail : {S E A : Type 0} {P : A → Type 0} (x : E) → Yields {S = S} P (fail x)
Yields-fail x = record { holds = λ s b t q. cc }

-- The first call's own postcondition is at hand for the rest.
pub Yields-bind :
    {S E A B : Type 0} (Q : A → Type 0) {P : B → Type 0} {m : Io S E A} {f : A → Io S E B}
    → Yields Q m
    → ((a : A) → Q a → Yields P (f a))
    → Yields P (m >>= f)
Yields-bind {S} {E} {A} {B} Q {P} {m} {f} hm hf = record {
  holds = λ s b t q. by_result (m s) (hm.holds s) b t q;
}
  where
    by_result :
        (r : Outcome E A × S)
        → ((a : A) (t : S) → r ≡ (ok a, t) → Q a)
        → (b : B) (t : S)
        → elim (r.0) as (λ _. Outcome E B × S) [
          | ok a ↦ f a r.1
          | err e ↦ (err e, r.1)
          | panic ↦ (panic, r.1)
        ]
          ≡ (ok b, t)
        → P b
    by_result (ok a, mid) given b t q = (hf a (given a mid refl)).holds mid b t q
    by_result (err e, mid) given b t q = cc
    by_result (panic, mid) given b t q = cc

abbrev Anything : {A : Type 0} → A → Type 0
Anything a = Unit {0}

pub Yields-any : {S E A : Type 0} (m : Io S E A) → Yields Anything m
Yields-any m = record { holds = λ s a t q. tt }

-- Nothing is known of the first result.
pub Yields-then :
    {S E A B : Type 0} {P : B → Type 0} (m : Io S E A) {f : A → Io S E B}
    → ((a : A) → Yields P (f a))
    → Yields P (m >>= f)
Yields-then m hf = Yields-bind Anything (Yields-any m) (λ a _. hf a)
