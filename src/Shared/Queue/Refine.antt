-- ===== src/Shared/Queue/Refine.antt =====
-- The ring buffer against a bounded first-in first-out list.
use nendi.Common.{
  ℕ, ◌≡◌, refl, arith, Bool, Option, none, some, List, [], ◌∷◌, ◌++◌, length, ltb, leb, ap,
  if◌then◌else◌, Bool-cases, inl, inr,
}
use nendi.Shared.Queue.{ArrayQueue, RingBuffer, IsRing, items, try_push, try_pop, is_full}

pub data Op (A : Type 0) : Type 0 where
  push : A → Op A
  pop : Op A
  ask_full : Op A

-- What a caller sees of one call.
pub data Reply (A : Type 0) : Type 0 where
  pushed : Option A → Reply A
  popped : Option A → Reply A
  fullness : Bool → Reply A

module _ {A : Type 0} where
  -- The specification: a list, oldest first, of at most `cap` items.
  unfoldable pub spec_push : ℕ → A → List A → Option A × List A
  spec_push cap x xs = if ltb (length xs) cap then (none, xs ++ (x ∷ [])) else (some x, xs)

  unfoldable pub spec_pop : List A → Option A × List A
  spec_pop [] = (none, [])
  spec_pop (x ∷ xs) = (some x, xs)

  unfoldable pub spec_run : ℕ → List A → List (Op A) → List (Reply A)
  spec_run cap xs [] = []
  spec_run cap xs (push x ∷ ops) =
      let (back, ys) = spec_push cap x xs in pushed back ∷ spec_run cap ys ops
  spec_run cap xs (pop ∷ ops) = let (item, ys) = spec_pop xs in popped item ∷ spec_run cap ys ops
  spec_run cap xs (ask_full ∷ ops) = fullness (leb cap (length xs)) ∷ spec_run cap xs ops

module _ {A : Type 0} (aq : ArrayQueue A) where
  unfoldable pub run : RingBuffer aq → List (Op A) → List (Reply A)
  run r [] = []
  run r (push x ∷ ops) = let (back, r') = try_push aq x r in pushed back ∷ run r' ops
  run r (pop ∷ ops) = let (item, r') = try_pop aq r in popped item ∷ run r' ops
  run r (ask_full ∷ ops) = fullness (is_full aq r) ∷ run r ops

  pub try_push_lem :
      (x : A) (r : RingBuffer aq)
      → IsRing aq r
      → ((try_push aq x r).0 ≡ (spec_push r.capacity x (items aq r)).0)
        × (items aq (try_push aq x r).1 ≡ (spec_push r.capacity x (items aq r)).1)
        × IsRing aq (try_push aq x r).1
        × ((try_push aq x r).1.capacity ≡ r.capacity)
  unfolding try_push spec_push
  try_push_lem x r v = elim (Bool-cases (ltb (length (items aq r)) r.capacity)) [
    | inl room ↦ ground (arith, aq.push_room x r.inner)
    | inr full ↦ ground (arith, aq.push_full x r.inner)
  ]

  pub try_pop_lem :
      (r : RingBuffer aq)
      → IsRing aq r
      → ((try_pop aq r).0 ≡ (spec_pop (items aq r)).0)
        × (items aq (try_pop aq r).1 ≡ (spec_pop (items aq r)).1)
        × IsRing aq (try_pop aq r).1
        × ((try_pop aq r).1.capacity ≡ r.capacity)
  unfolding try_pop spec_pop
  try_pop_lem r v = by_contents (items aq r) refl
    where
      by_contents :
          (xs : List A)
          → items aq r ≡ xs
          → ((try_pop aq r).0 ≡ (spec_pop (items aq r)).0)
            × (items aq (try_pop aq r).1 ≡ (spec_pop (items aq r)).1)
            × IsRing aq (try_pop aq r).1
            × ((try_pop aq r).1.capacity ≡ r.capacity)
      by_contents [] e = ground (arith, aq.pop_nil r.inner e)
      by_contents (x ∷ xs) e = ground (arith, aq.pop_cons r.inner x xs e)

  -- No sequence of pushes, pops and fullness tests tells a ring buffer from the bounded list of the
  -- items that it holds.
  pub run_refines :
      (ops : List (Op A)) (r : RingBuffer aq)
      → IsRing aq r
      → run r ops ≡ spec_run r.capacity (items aq r) ops
  unfolding run spec_run is_full
  run_refines [] r v = refl
  run_refines (push x ∷ ops) r v =
      let (back, kept, ring, cap) = try_push_lem x r v in
      rw (run_refines ops (try_push aq x r).1 ring, back, kept, cap)
  run_refines (pop ∷ ops) r v =
      let (item, kept, ring, cap) = try_pop_lem r v in
      rw (run_refines ops (try_pop aq r).1 ring, item, kept, cap)
  run_refines (ask_full ∷ ops) r v =
      rw (run_refines ops r v, ap (leb r.capacity) (aq.len_lem r.inner))
