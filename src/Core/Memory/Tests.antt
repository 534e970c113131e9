-- ===== src/Core/Memory/Tests.antt =====
-- The budget's theorem on calls that come in an odd order.
use nendi.Common.{◌-◌, ◌≡◌, arith, ltb, List, [], ◌∷◌}
use nendi.Core.Memory.{new, is_exceeded, remaining}
use nendi.Core.Memory.Balance.{Call, taken, given, run, all_taken, all_given, run-new}

abbrev calls : List Call
calls = given 30 ∷ taken 100 ∷ taken 30 ∷ []

run-new_example :
    let m = run calls (new 90) in
    let in_use = all_taken calls - all_given calls in
    (m.used ≡ in_use) × (is_exceeded m ≡ ltb 90 in_use) × (remaining m ≡ 90 - in_use)
unfolding all_taken all_given
run-new_example = run-new calls 90 (omega arith) (omega arith)
