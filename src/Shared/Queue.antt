-- ===== src/Shared/Queue.antt =====
-- shared/src/queue/ring.rs: the bounded ring buffer, a wrapper of `crossbeam::queue::ArrayQueue`.
pub mod Refine
pub mod ListQueue
mod Tests
use nendi.Common.{
  ℕ, ◌<◌, ◌≤◌, ◌≡◌, Bool, Option, none, some, List, [], ◌∷◌, ◌++◌, length, ltb, leb, ◌==◌,
  if◌then◌else◌,
}

-- The queue of crossbeam, which is not part of this repository: its operations, and what its
-- documentation says of them. `push` hands the item back when the queue is full. Every operation is
-- atomic, so a history of concurrent calls is a sequence of these.
pub record ArrayQueue (A : Type 0) : Type 1 where
  pub Queue : Type 0
  pub create : ℕ → Queue
  pub push : A → Queue → Option A × Queue
  pub pop : Queue → Option A × Queue
  pub len : Queue → ℕ
  pub contents : Queue → List A
  pub limit : Queue → ℕ
  pub len_lem : (q : Queue) → len q ≡ length (contents q)
  pub contents-create : (n : ℕ) → contents (create n) ≡ []
  pub limit-create : (n : ℕ) → limit (create n) ≡ n
  pub push_room :
      (x : A) (q : Queue)
      → length (contents q) < limit q
      → ((push x q).0 ≡ none)
        × (contents (push x q).1 ≡ contents q ++ (x ∷ []))
        × (limit (push x q).1 ≡ limit q)
  pub push_full : (x : A) (q : Queue) → limit q ≤ length (contents q) → push x q ≡ (some x, q)
  pub pop_nil : (q : Queue) → contents q ≡ [] → pop q ≡ (none, q)
  pub pop_cons :
      (q : Queue) (x : A) (rest : List A)
      → contents q ≡ x ∷ rest
      → ((pop q).0 ≡ some x) × (contents (pop q).1 ≡ rest) × (limit (pop q).1 ≡ limit q)

module _ {A : Type 0} (aq : ArrayQueue A) where
  -- Clones of a `RingBuffer` share the queue behind one `Arc`; the model keeps one.
  pub record RingBuffer : Type 0 where
    pub inner : aq.Queue
    pub capacity : ℕ

  -- `none` is the panic at capacity zero.
  unfoldable pub new : ℕ → Option RingBuffer
  new capacity =
      if ltb 0 capacity
      then some (record { inner = aq.create capacity; capacity = capacity })
      else none

  -- The option is the item that `Err` hands back.
  unfoldable pub try_push : A → RingBuffer → Option A × RingBuffer
  try_push item r = let (back, q) = aq.push item r.inner in (back, record r { inner = q })

  unfoldable pub try_pop : RingBuffer → Option A × RingBuffer
  try_pop r = let (item, q) = aq.pop r.inner in (item, record r { inner = q })

  unfoldable pub len : RingBuffer → ℕ
  len r = aq.len r.inner

  unfoldable pub is_empty : RingBuffer → Bool
  is_empty r = aq.len r.inner == 0

  unfoldable pub is_full : RingBuffer → Bool
  is_full r = leb r.capacity (aq.len r.inner)

  abbrev pub items : RingBuffer → List A
  items r = aq.contents r.inner

  -- What `new` establishes and the operations keep.
  abbrev pub IsRing : RingBuffer → Type 0
  IsRing r = aq.limit r.inner ≡ r.capacity
