-- ===== src/Common/Cursor/Results.antt =====
-- What a reader returns when it succeeds.
use nendi.Common.Cursor.{Outcome, ok, err, panic, Reader, ◌>>=◌, pure, fail}
use mathlib.Core.Path.{◌≡◌}
use mathlib.Core.Bool.{Bool, true, false}
use nendi.Common.Checks.{if◌then◌else◌}
use nendi.Common.Words.{Bytes}

-- Every successful result satisfies `P`.
pub record Gives {E A : Type 0} (P : A → Type 0) (m : Reader E A) : Type 0 where
  pub holds : (s : Bytes) (a : A) (rest : Bytes) → m s ≡ ok (a, rest) → P a

pub Gives-pure : {E A : Type 0} {P : A → Type 0} {a : A} → P a → Gives {E = E} P (pure a)
Gives-pure {P} h = record { holds = λ s b rest q. let e : _ ≡ b = cc in rw (← e) h }

pub Gives-fail : {E A : Type 0} {P : A → Type 0} (x : E) → Gives P (fail x)
Gives-fail x = record { holds = λ s b rest q. cc }

bind_holds :
    {E A B : Type 0} {P : B → Type 0} (r : Outcome E (A × Bytes)) (f : A → Reader E B) (b : B)
    (rest : Bytes)
    → ((a : A) → Gives P (f a))
    → elim r as (λ _. Outcome E (B × Bytes)) [ ok (a, s') ↦ f a s' | err e ↦ err e | panic ↦ panic ]
      ≡ ok (b, rest)
    → P b
bind_holds (ok (a, s)) f b rest hf q = (hf a).holds s b rest q
bind_holds (err e) f b rest hf q = cc
bind_holds panic f b rest hf q = cc

pub Gives-bind :
    {E A B : Type 0} {P : B → Type 0} (m : Reader E A) {f : A → Reader E B}
    → ((a : A) → Gives P (f a))
    → Gives P (m >>= f)
Gives-bind m {f} hf = record { holds = λ s b rest q. bind_holds (m s) f b rest hf q }

pub Gives-if :
    {E A : Type 0} {P : A → Type 0} (b : Bool) {m k : Reader E A}
    → Gives P m
    → Gives P k
    → Gives P (if b then m else k)
Gives-if true hm hk = hm
Gives-if false hm hk = hk
