-- ===== src/Core/Backpressure/Throttle/Credits.antt =====
-- The credits against those taken and returned.
use nendi.Common.{ℕ, ◌+◌, ◌≡◌, ◌<◌, arith, List, u32_mod}
use nendi.Core.Backpressure.Throttle.{
  new, replenish, reset, Thread, Shared, Step, load, load_zero, exchange, exchange_fails,
  call_replenish, call_reset, Reach, here, next,
}

abbrev Balanced : Shared → Type 0
Balanced s =
    s.throttle.window + s.returned < u32_mod
    → s.throttle.credits + s.taken ≡ s.throttle.window + s.returned

Step-Balanced : (s t : Shared) → Step s t → Balanced s → Balanced t
unfolding replenish reset
Step-Balanced s _ (load i n _ _) h = h
Step-Balanced s _ (load_zero i _ _) h = h
Step-Balanced s _ (exchange i n _ e) h = λ w. let b = h w in omega arith
Step-Balanced s _ (exchange_fails i n _) h = h
Step-Balanced s _ (call_replenish amount) h = λ w. let b = h (omega arith) in omega arith
Step-Balanced s _ call_reset h = λ w. omega arith

Reach-Balanced : (s t : Shared) → Reach s t → Balanced s → Balanced t
Reach-Balanced s _ here h = h
Reach-Balanced s _ (next {t} {u} r step) h = Step-Balanced t u step (Reach-Balanced s t r h)

-- Any threads that take, return and reset credits of a new throttle at the same time: as long as the
-- credits handed out since the last reset fit a `u32`, those taken and those left are together the
-- window and those returned.
pub credits_balance :
    (window : ℕ) (threads : List Thread) (s : Shared)
    → Reach (record { throttle = new window; threads = threads; taken = 0; returned = 0 }) s
    → s.throttle.window + s.returned < u32_mod
    → s.throttle.credits + s.taken ≡ s.throttle.window + s.returned
unfolding new
credits_balance window threads s r = Reach-Balanced _ s r (λ w. omega arith)
