-- ===== src/Core/Backpressure/Tests.antt =====
-- The theorems on the gate and the credits at concrete calls.
use nendi.Common.{◌+◌, ◌≡◌, refl, arith, false, none, [], ◌∷◌}
use nendi.Core.Backpressure.Gate.{manual, new}
use nendi.Core.Backpressure.Gate.Race
use nendi.Core.Backpressure.Gate.Race.{close_and_open, close_and_open_no_reason}
use nendi.Core.Backpressure.Throttle
use nendi.Core.Backpressure.Throttle.{
  Shared, trying, loaded, consumed, Reach, here, next, load, exchange, call_replenish,
}
use nendi.Core.Backpressure.Throttle.Credits.{credits_balance}

close_and_open_no_reason_example :
    (s : Race.Shared) × Race.Reach (close_and_open manual new) s
    × (s.threads ≡ [] ∷ ([] ∷ []))
    × (s.gate.is_open ≡ false)
    × (s.gate.reason ≡ none)
close_and_open_no_reason_example = close_and_open_no_reason manual new

abbrev start : Shared
start = record {
  throttle = Throttle.new 1;
  threads = trying ∷ (trying ∷ []);
  taken = 0;
  returned = 0;
}

abbrev later : Shared
later = record {
  throttle = record { credits = 1; window = 1 };
  threads = consumed ∷ (loaded 0 ∷ []);
  taken = 1;
  returned = 1;
}

-- Both threads read the one credit; the first takes it, and then it is returned.
start-Reach-later : Reach start later
unfolding Throttle.new Throttle.replenish
start-Reach-later =
    next
      (next (next (next here (load 0 0 refl refl)) (load 1 0 refl refl)) (exchange 0 0 refl refl))
      (call_replenish 5)

credits_balance_example :
    later.throttle.credits + later.taken ≡ later.throttle.window + later.returned
credits_balance_example =
    credits_balance 1 (trying ∷ (trying ∷ [])) later start-Reach-later (omega arith)
