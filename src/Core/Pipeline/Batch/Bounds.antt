-- ===== src/Core/Pipeline/Batch/Bounds.antt =====
-- What a batch says of the events that were pushed into it.
use nendi.Common.{
  ℕ, ◌+◌, ◌-◌, min, max, ◌%◌, ◌≤◌, ◌≡◌, ◌^◌, refl, arith, List, [], ◌∷◌, ◌++◌, append_assoc,
  append-nil, ◌∙◌, sym,
}
use nendi.Shared.Event.{ChangeEvent, estimated_size}
use nendi.Core.Pipeline.Batch.{WriteBatch, new, push}

-- The least and the greatest LSN of some events, `Lsn::MAX` and `Lsn::ZERO` of none.
pub least : List ChangeEvent → ℕ
least [] = 2 ^ 64 - 1
least (e ∷ es) = min e.lsn (least es)

pub greatest : List ChangeEvent → ℕ
greatest [] = 0
greatest (e ∷ es) = max e.lsn (greatest es)

least-le-max : (es : List ChangeEvent) → least es ≤ 2 ^ 64 - 1
unfolding least
least-le-max [] = omega arith
least-le-max (e ∷ es) = omega (arith, least-le-max es)

least-snoc :
    (es : List ChangeEvent) (e : ChangeEvent) → least (es ++ (e ∷ [])) ≡ min (least es) e.lsn
unfolding least
least-snoc [] e = omega arith
least-snoc (x ∷ es) e = omega (arith, least-snoc es e)

greatest-snoc :
    (es : List ChangeEvent) (e : ChangeEvent) → greatest (es ++ (e ∷ [])) ≡ max (greatest es) e.lsn
unfolding greatest
greatest-snoc [] e = omega arith
greatest-snoc (x ∷ es) e = omega (arith, greatest-snoc es e)

module _ (size_of_event : ℕ) where
  pub push_all : List ChangeEvent → WriteBatch → WriteBatch
  push_all [] b = b
  push_all (e ∷ es) b = push_all es (push size_of_event e b)

  pub total_size : List ChangeEvent → ℕ
  total_size [] = 0
  total_size (e ∷ es) = estimated_size size_of_event e + total_size es

  -- The bounds are those of the events pushed so far, and the counter is the sum of their sizes, as
  -- a `usize`.
  pub record IsExact (b : WriteBatch) : Type 0 where
    pub lower : b.min_lsn ≡ least b.events
    pub upper : b.max_lsn ≡ greatest b.events
    pub bytes : b.total_bytes ≡ total_size b.events % 2 ^ 64

  total_size-append :
      (xs ys : List ChangeEvent) → total_size (xs ++ ys) ≡ total_size xs + total_size ys
  unfolding total_size
  total_size-append [] ys = omega arith
  total_size-append (x ∷ xs) ys = omega (arith, total_size-append xs ys)

  pub push-IsExact :
      (e : ChangeEvent) (b : WriteBatch) → IsExact b → IsExact (push size_of_event e b)
  unfolding push
  push-IsExact e b v = record {
    lower = ground (arith, least-snoc b.events e, v.lower);
    upper = ground (arith, greatest-snoc b.events e, v.upper);
    bytes = unfold total_size in omega (arith, v.bytes, total_size-append b.events (e ∷ []));
  }

  push_all-IsExact : (es : List ChangeEvent) (b : WriteBatch) → IsExact b → IsExact (push_all es b)
  unfolding push_all
  push_all-IsExact [] b v = v
  push_all-IsExact (e ∷ es) b v = push_all-IsExact es _ (push-IsExact e b v)

  pub events-push_all :
      (es : List ChangeEvent) (b : WriteBatch) → (push_all es b).events ≡ b.events ++ es
  unfolding push_all push
  events-push_all [] b = sym (append-nil b.events)
  events-push_all (e ∷ es) b = events-push_all es _ ∙ append_assoc b.events (e ∷ []) es

  pub new-IsExact : IsExact new
  unfolding total_size least greatest
  new-IsExact = record { lower = refl; upper = refl; bytes = refl }

  -- A batch filled from empty holds the pushed events in their order; `min_lsn` is the least of their
  -- LSNs and `max_lsn` the greatest (`Lsn::MAX` and `Lsn::ZERO` if there is none); and `total_bytes`
  -- is the sum of their estimated sizes, modulo 2 ^ 64.
  pub push_all_lem :
      (es : List ChangeEvent)
      → ((push_all es new).events ≡ es)
        × ((push_all es new).min_lsn ≡ least es)
        × ((push_all es new).max_lsn ≡ greatest es)
        × ((push_all es new).total_bytes ≡ total_size es % 2 ^ 64)
  push_all_lem es =
      let v = push_all-IsExact es new new-IsExact in
      let held = events-push_all es new in
      (held, rw held at v.lower, rw held at v.upper, rw held at v.bytes)
