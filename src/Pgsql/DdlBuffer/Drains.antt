-- ===== src/Pgsql/DdlBuffer/Drains.antt =====
-- What drains give of the changes pushed.
use nendi.Common.{
  ltb, ◌+◌, ℕ, ◌≤◌, ◌≡◌, refl, ap, arith, Bool, true, false, not, ◌&&◌, Bool-cases, inl, inr, List,
  [], ◌∷◌, ◌++◌, leb, if◌then◌else◌,
}
use nendi.Shared.Lsn.{Lsn}
use nendi.Pgsql.DdlBuffer.{DdlChange, DdlBuffer, new, push, partition, drain_up_to}

-- The elements with a property, in their order.
unfoldable pub filter {ℓ} : {A : Type ℓ} → (A → Bool) → List A → List A
filter p [] = []
filter p (x ∷ xs) = let rest = filter p xs in if p x then x ∷ rest else rest

pub partition-filter {ℓ} :
    {A : Type ℓ} (p : A → Bool) (xs : List A)
    → partition p xs ≡ (filter p xs, filter (λ x. not (p x)) xs)
unfolding partition filter
partition-filter p [] = refl
partition-filter p (x ∷ xs) = elim (Bool-cases (p x)) [
  | inl hit ↦ rw (hit, partition-filter p xs, if◌then◌else◌) refl
  | inr miss ↦ rw (miss, partition-filter p xs, if◌then◌else◌) refl
]

filter-append {ℓ} :
    {A : Type ℓ} (p : A → Bool) (xs ys : List A) → filter p (xs ++ ys) ≡ filter p xs ++ filter p ys
unfolding filter
filter-append p [] ys = refl
filter-append p (x ∷ xs) ys = elim (Bool-cases (p x)) [
  | inl hit ↦ rw (hit, filter-append p xs ys, if◌then◌else◌) refl
  | inr miss ↦ rw (miss, filter-append p xs ys, if◌then◌else◌) refl
]

filter-filter {ℓ} :
    {A : Type ℓ} (p q r : A → Bool) (xs : List A)
    → ((x : A) → r x ≡ (q x && p x))
    → filter p (filter q xs) ≡ filter r xs
unfolding filter
filter-filter p q r [] both = refl
filter-filter p q r (x ∷ xs) both = elim (Bool-cases (q x)) [
  | inl hit ↦ elim (Bool-cases (p x)) [
    | inl good ↦
        let e : r x ≡ true = ground (arith, both x) in
        rw (hit, filter) (rw (good, e) (ap (λ l. x ∷ l) (filter-filter p q r xs both)))
    | inr bad ↦
        let e : r x ≡ false = ground (arith, both x) in
        rw (hit, filter) (rw (bad, e) (filter-filter p q r xs both))
  ]
  | inr miss ↦
      let e : r x ≡ false = ground (arith, both x) in
      rw (miss, filter) (rw e (filter-filter p q r xs both))
]

-- A call: a change comes in, or the changes up to a position are taken out.
pub data Call : Type 0 where
  pushed : DdlChange → Call
  drained : Lsn → Call

-- The changes taken out, one list for each drain.
unfoldable pub run : List Call → DdlBuffer → List (List DdlChange) × DdlBuffer
run [] b = ([], b)
run (pushed c ∷ cs) b = run cs (push c b)
run (drained lsn ∷ cs) b =
    let rest = run cs (drain_up_to lsn b).1 in ((drain_up_to lsn b).0 ∷ rest.0, rest.1)

-- The changes pushed, in their order.
unfoldable pub changes : List Call → List DdlChange
changes [] = []
changes (pushed c ∷ cs) = c ∷ changes cs
changes (drained lsn ∷ cs) = changes cs

-- How many elements have a property.
unfoldable pub count {ℓ} : {A : Type ℓ} → (A → Bool) → List A → ℕ
count p [] = 0
count p (x ∷ xs) = (if p x then 1 else 0) + count p xs

count-append {ℓ} :
    {A : Type ℓ} (p : A → Bool) (xs ys : List A) → count p (xs ++ ys) ≡ count p xs + count p ys
unfolding count
count-append p [] ys = omega arith
count-append p (x ∷ xs) ys = omega (arith, count-append p xs ys)

count-partition {ℓ} :
    {A : Type ℓ} (p q : A → Bool) (xs : List A)
    → count p (partition q xs).0 + count p (partition q xs).1 ≡ count p xs
unfolding count partition
count-partition p q [] = omega arith
count-partition p q (x ∷ xs) = elim (Bool-cases (q x)) [
  | inl hit ↦ rw (hit, if◌then◌else◌) (omega (arith, count-partition p q xs))
  | inr miss ↦ rw (miss, if◌then◌else◌) (omega (arith, count-partition p q xs))
]

unfoldable pub count_all {ℓ} : {A : Type ℓ} → (A → Bool) → List (List A) → ℕ
count_all p [] = 0
count_all p (xs ∷ xss) = count p xs + count_all p xss

counts_from :
    (p : DdlChange → Bool) (cs : List Call) (b : DdlBuffer)
    → count_all p (run cs b).0 + count p (run cs b).1.pending
      ≡ count p b.pending + count p (changes cs)
unfolding run changes count_all count push drain_up_to
counts_from p [] b = omega arith
counts_from p (pushed c ∷ cs) b =
    omega (arith, counts_from p cs (push c b), count-append p b.pending (c ∷ []))
counts_from p (drained lsn ∷ cs) b = omega (
  arith,
  counts_from p cs (drain_up_to lsn b).1,
  count-partition p (λ c. leb c.lsn lsn) b.pending,
)

-- However pushes and drains alternate, no change is lost and none is given twice: of each kind that a
-- test can tell, as many changes were drained or are pending as were pushed.
pub run_counts :
    (p : DdlChange → Bool) (cs : List Call)
    → count_all p (run cs new).0 + count p (run cs new).1.pending ≡ count p (changes cs)
unfolding count
run_counts p cs = omega (arith, counts_from p cs new)

-- Two drains, the second no earlier than the first: the first gives the changes up to its position,
-- the second those past it and up to its own, both in the order of the pushes, and the changes past
-- the second stay pending.
pub drain_up_to_twice :
    (l m : Lsn) (b : DdlBuffer)
    → l ≤ m
    → let (first, b1) = drain_up_to l b in
      let (second, b2) = drain_up_to m b1 in
      (first ≡ filter (λ c. leb c.lsn l) b.pending)
      × (second ≡ filter (λ c. ltb l c.lsn && leb c.lsn m) b.pending)
      × (b2.pending ≡ filter (λ c. ltb m c.lsn) b.pending)
unfolding drain_up_to
drain_up_to_twice l m b h = rw (partition-filter (λ c. leb c.lsn l) b.pending) (
    rw (partition-filter (λ c. leb c.lsn m) (filter (λ c. not (leb c.lsn l)) b.pending)) (
      refl,
      filter-filter (λ c. leb c.lsn m) (λ c. not (leb c.lsn l)) (λ c. ltb l c.lsn && leb c.lsn m)
          b.pending (λ c. ground arith),
      filter-filter (λ c. not (leb c.lsn m)) (λ c. not (leb c.lsn l)) (λ c. ltb m c.lsn) b.pending
          (λ c. ground arith),
    ))
