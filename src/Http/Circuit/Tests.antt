-- ===== src/Http/Circuit/Tests.antt =====
-- The breaker's theorems at concrete calls.
use nendi.Common.{◌≡◌, refl, arith, true, false, some, [], ◌∷◌}
use nendi.Http.Circuit.{CircuitState, new}
use nendi.Http.Circuit.Runs.{request, success, failure, run, breaker, IsBreaker, run-IsBreaker}
use nendi.Http.Circuit.Probe.{answers, one_probe, refusals, answers-opened}

run-IsBreaker_example :
    IsBreaker (run (failure 10 ∷ (failure 20 ∷ (request 90 ∷ (success ∷ [])))) (new 2 50))
run-IsBreaker_example =
    run-IsBreaker 2 50 (failure 10 ∷ (failure 20 ∷ (request 90 ∷ (success ∷ [])))) (omega arith)
      (omega arith)

answers-opened_example :
    answers (40 ∷ (85 ∷ (86 ∷ []))) (breaker CircuitState.opened 3 3 50 (some 30))
    ≡ one_probe 80 (40 ∷ (85 ∷ (86 ∷ [])))
answers-opened_example =
    answers-opened (40 ∷ (85 ∷ (86 ∷ []))) 3 3 50 30 (omega arith, (omega arith, (omega arith, tt)))

one_probe_run : one_probe 80 (40 ∷ (85 ∷ (86 ∷ []))) ≡ false ∷ (true ∷ (false ∷ []))
unfolding one_probe refusals
one_probe_run = refl
