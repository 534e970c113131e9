-- ===== src/Core/Pipeline/FilterExpr/Operations.antt =====
-- Splitting, and printed operations.
use nendi.Common.{
  ℕ, ◌<◌, ◌≡◌, ◌≢◌, refl, sym, ap, arith, some, List, [], ◌∷◌, ◌++◌, Text, All, All-append, All-map,
  text_eq,
}
use nendi.Common.Whitespace.{trim_end, skip_white, trim}
use nendi.Shared.Event.{OpType, insert, update, delete, truncate, as_str, from_str_tag}
use nendi.Core.Pipeline.FilterExpr.{before_first, split, parse_ops}
use nendi.Core.Pipeline.FilterExpr.Finding.{Lacks, trim-word}

pub split-append : (c : ℕ) (xs ys : Text) → Lacks c xs → split c (xs ++ (c ∷ ys)) ≡ xs ∷ split c ys
unfolding split
split-append c [] ys h = ground arith
split-append c (x ∷ xs) ys h =
    rw (split-append c xs ys h.1) (unfold before_first in ground (arith, h.0))

pub split-whole : (c : ℕ) (xs : Text) → Lacks c xs → split c xs ≡ xs ∷ []
unfolding split
split-whole c [] h = refl
split-whole c (x ∷ xs) h = rw (split-whole c xs h.1) (unfold before_first in ground (arith, h.0))

-- The names of the operations, with commas between them.
unfoldable pub print_ops : List OpType → Text
print_ops [] = []
print_ops (o ∷ []) = as_str o
print_ops (o ∷ (q ∷ os)) = as_str o ++ (b',' ∷ print_ops (q ∷ os))

abbrev pub IsLetter : ℕ → Type 0
IsLetter c = (96 < c) × (c < 123)

pub as_str-letters : (o : OpType) → All IsLetter (as_str o)
unfolding as_str
as_str-letters insert = omega arith
as_str-letters update = omega arith
as_str-letters delete = omega arith
as_str-letters truncate = omega arith

from_str_tag-as_str : (o : OpType) → from_str_tag (as_str o) ≡ some o
unfolding from_str_tag as_str text_eq
from_str_tag-as_str insert = refl
from_str_tag-as_str update = refl
from_str_tag-as_str delete = refl
from_str_tag-as_str truncate = refl

as_str-Lacks : (c : ℕ) (o : OpType) → c < 96 → Lacks c (as_str o)
as_str-Lacks c o h =
    All-map IsLetter (λ x. x ≢ c) (λ x l e. absurd (omega (arith, l.0, e))) (as_str o)
      (as_str-letters o)

trim-as_str : (o : OpType) → trim (as_str o) ≡ as_str o
trim-as_str o =
    trim-word (as_str o)
      (All-map IsLetter _ (λ x l. (omega arith, omega arith)) (as_str o) (as_str-letters o))

pub parse_ops-split : (ops : List OpType) → parse_ops (split b',' (print_ops ops)) ≡ ops
unfolding print_ops parse_ops
parse_ops-split [] = unfold split trim skip_white trim_end from_str_tag text_eq in refl
parse_ops-split (o ∷ []) =
    rw (split-whole b',' (as_str o) (as_str-Lacks b',' o (omega arith)))
      (rw (trim-as_str o, parse_ops) (rw (from_str_tag-as_str o) refl))
parse_ops-split (o ∷ (q ∷ os)) =
    rw (split-append b',' (as_str o) (print_ops (q ∷ os)) (as_str-Lacks b',' o (omega arith))) (
      rw (trim-as_str o, parse_ops)
        (rw (from_str_tag-as_str o, parse_ops) (ap (λ l. o ∷ l) (parse_ops-split (q ∷ os)))))

pub print_ops-Lacks : (c : ℕ) (ops : List OpType) → c < 96 → c ≢ b',' → Lacks c (print_ops ops)
unfolding print_ops
print_ops-Lacks c [] h k = tt
print_ops-Lacks c (o ∷ []) h k = as_str-Lacks c o h
print_ops-Lacks c (o ∷ (q ∷ os)) h k =
    All-append (λ x. x ≢ c) (as_str o) (b',' ∷ print_ops (q ∷ os)) (as_str-Lacks c o h)
      ((λ e. k (sym e)), print_ops-Lacks c (q ∷ os) h k)
