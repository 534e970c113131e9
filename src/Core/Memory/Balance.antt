-- ===== src/Core/Memory/Balance.antt =====
-- Allocations and deallocations in any order.
use nendi.Common.{ℕ, ◌+◌, ◌-◌, ◌%◌, ◌^◌, ◌<◌, ◌≤◌, ◌≡◌, refl, arith, ltb, List, [], ◌∷◌}
use nendi.Core.Memory.{MemoryBudget, new, allocate, deallocate, is_exceeded, remaining}

-- A call of one of the threads that share the counter. Each is one atomic access.
pub data Call : Type 0 where
  taken given : ℕ → Call

unfoldable pub run : List Call → MemoryBudget → MemoryBudget
run [] m = m
run (taken n ∷ cs) m = run cs (allocate n m)
run (given n ∷ cs) m = run cs (deallocate n m)

unfoldable pub all_taken : List Call → ℕ
all_taken [] = 0
all_taken (taken n ∷ cs) = n + all_taken cs
all_taken (given n ∷ cs) = all_taken cs

unfoldable pub all_given : List Call → ℕ
all_given [] = 0
all_given (taken n ∷ cs) = all_given cs
all_given (given n ∷ cs) = n + all_given cs

budget_bytes-run : (cs : List Call) (m : MemoryBudget) → (run cs m).budget_bytes ≡ m.budget_bytes
unfolding run allocate deallocate
budget_bytes-run [] m = refl
budget_bytes-run (taken n ∷ cs) m = budget_bytes-run cs (allocate n m)
budget_bytes-run (given n ∷ cs) m = budget_bytes-run cs (deallocate n m)

-- The counter before the calls and what they take, as the counter after them and what they give
-- back, up to whole turns of it.
used-run :
    (cs : List Call) (m : MemoryBudget)
    → m.used < 2 ^ 64
    → all_given cs < 2 ^ 64
    → ((run cs m).used < 2 ^ 64)
      × (((run cs m).used + all_given cs) % 2 ^ 64 ≡ (m.used + all_taken cs) % 2 ^ 64)
unfolding run all_given all_taken allocate deallocate
used-run [] m small h = (small, omega arith)
used-run (taken n ∷ cs) m small h =
    let (bound, same) = used-run cs (allocate n m) (omega arith) h in (bound, omega arith)
used-run (given n ∷ cs) m small h =
    let (bound, same) = used-run cs (deallocate n m) (omega arith) (omega arith) in
    (bound, omega arith)

-- After any calls of any threads on a new budget, in any order, even one in which memory is given
-- back before it is counted as taken: if no more is given back than taken, and less than 2 ^ 64 bytes
-- are taken in all, the counter is their difference, the budget counts as exceeded exactly if that is
-- above it, and what remains is the rest of the budget, or nothing.
pub run-new :
    (cs : List Call) (budget_bytes : ℕ)
    → all_taken cs < 2 ^ 64
    → all_given cs ≤ all_taken cs
    → let m = run cs (new budget_bytes) in
      let in_use = all_taken cs - all_given cs in
      (m.used ≡ in_use)
      × (is_exceeded m ≡ ltb budget_bytes in_use)
      × (remaining m ≡ budget_bytes - in_use)
unfolding new is_exceeded remaining
run-new cs budget_bytes small h =
    let m = new budget_bytes in
    let (bound, same) = used-run cs m (omega arith) (omega arith) in
    let exact : (run cs m).used ≡ all_taken cs - all_given cs = omega arith in
    (exact, rw (exact, budget_bytes-run cs m) refl, rw (exact, budget_bytes-run cs m) refl)
