-- ===== src/Shared/Queue/Tests.antt =====
-- Runs of the ring buffer over a list.
use nendi.Common.{ℕ, ◌≡◌, refl, true, none, some, List, [], ◌∷◌}
use nendi.Shared.Queue.{RingBuffer, new}
use nendi.Shared.Queue.ListQueue.{list_queue}
use nendi.Shared.Queue.Refine.{
  Op, push, pop, ask_full, pushed, popped, fullness, spec_run, run, run_refines, spec_push,
  spec_pop,
}

abbrev fresh : RingBuffer (list_queue ℕ)
fresh = record { inner = record { cells = []; size = 2 }; capacity = 2 }

new_runs : new (list_queue ℕ) 2 ≡ some fresh
unfolding new
new_runs = refl

new_panics : new (list_queue ℕ) 0 ≡ none
unfolding new
new_panics = refl

abbrev script : List (Op ℕ)
script = push 1 ∷ push 2 ∷ ask_full ∷ push 3 ∷ pop ∷ pop ∷ pop ∷ []

spec_runs :
    spec_run 2 [] script
    ≡ pushed none
      ∷ pushed none
      ∷ fullness true
      ∷ pushed (some 3)
      ∷ popped (some 1)
      ∷ popped (some 2)
      ∷ popped none
      ∷ []
unfolding spec_run spec_push spec_pop
spec_runs = refl

run_refines_example : run (list_queue ℕ) fresh script ≡ spec_run 2 [] script
run_refines_example = run_refines (list_queue ℕ) script fresh refl
