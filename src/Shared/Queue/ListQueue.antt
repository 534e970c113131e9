-- ===== src/Shared/Queue/ListQueue.antt =====
-- A queue that meets the interface: a list beside its limit. Tests and examples run over it.
use nendi.Common.{
  ℕ, ◌<◌, ◌≤◌, ◌≡◌, refl, arith, Option, none, some, List, [], ◌∷◌, ◌++◌, length, ltb,
  if◌then◌else◌,
}
use nendi.Shared.Queue.{ArrayQueue}

pub record Cells (A : Type 0) : Type 0 where
  pub cells : List A
  pub size : ℕ

module _ {A : Type 0} where
  abbrev pub list_push : A → Cells A → Option A × Cells A
  list_push x q =
      if ltb (length q.cells) q.size
      then (none, record q { cells = q.cells ++ (x ∷ []) })
      else (some x, q)

  abbrev pop_cells : List A → ℕ → Option A × Cells A
  pop_cells [] n = (none, record { cells = []; size = n })
  pop_cells (x ∷ xs) n = (some x, record { cells = xs; size = n })

  abbrev pub list_pop : Cells A → Option A × Cells A
  list_pop q = pop_cells q.cells q.size

  pub list_push_room :
      (x : A) (q : Cells A)
      → length q.cells < q.size
      → ((list_push x q).0 ≡ none)
        × ((list_push x q).1.cells ≡ q.cells ++ (x ∷ []))
        × ((list_push x q).1.size ≡ q.size)
  list_push_room x q h = ground arith

  pub list_push_full : (x : A) (q : Cells A) → q.size ≤ length q.cells → list_push x q ≡ (some x, q)
  list_push_full x q h = ground arith

  pub list_pop_nil : (q : Cells A) → q.cells ≡ [] → list_pop q ≡ (none, q)
  list_pop_nil q h = ground arith

  pub list_pop_cons :
      (q : Cells A) (x : A) (rest : List A)
      → q.cells ≡ x ∷ rest
      → ((list_pop q).0 ≡ some x) × ((list_pop q).1.cells ≡ rest) × ((list_pop q).1.size ≡ q.size)
  list_pop_cons q x rest h = ground arith

abbrev pub list_queue : (A : Type 0) → ArrayQueue A
list_queue A = record {
  Queue = Cells A;
  create = λ n. record { cells = []; size = n };
  push = list_push;
  pop = list_pop;
  len = λ q. length q.cells;
  contents = λ q. q.cells;
  limit = λ q. q.size;
  len_lem = λ q. refl;
  contents-create = λ n. refl;
  limit-create = λ n. refl;
  push_room = list_push_room;
  push_full = list_push_full;
  pop_nil = list_pop_nil;
  pop_cons = list_pop_cons;
}
