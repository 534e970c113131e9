-- ===== src/Core/Backpressure/Throttle.antt =====
-- core/src/backpressure/throttle.rs: credits that several threads take and return.
pub mod Credits
use nendi.Common.{ℕ, suc, zero, ◌+◌, ◌%◌, ◌≡◌, min, Option, some, List, get_elem?, set, u32_mod}

-- Clones of a throttle share its credits.
pub record CreditThrottle : Type 0 where
  pub credits : ℕ
  pub window : ℕ

unfoldable pub new : ℕ → CreditThrottle
new window = record { credits = window; window = window }

-- The credits are a `u32`, and `fetch_add` wraps.
unfoldable pub replenish : ℕ → CreditThrottle → CreditThrottle
replenish amount t = record t { credits = (t.credits + min amount t.window) % u32_mod }

unfoldable pub reset : CreditThrottle → CreditThrottle
reset t = record t { credits = t.window }

-- A thread in `try_consume`: at the load, behind it with the credits that it read less one, and with
-- its answer.
pub data Thread : Type 0 where
  trying : Thread
  loaded : ℕ → Thread
  consumed : Thread
  refused : Thread

-- Beside the throttle: the credits taken and those returned since the last reset.
pub record Shared : Type 0 where
  pub throttle : CreditThrottle
  pub threads : List Thread
  pub taken : ℕ
  pub returned : ℕ

-- The compare-and-exchange of the loop is the weak one: it may fail with the credits unchanged.
pub data Step (s : Shared) : Shared → Type 0 where
  load :
      (i n : ℕ)
      → get_elem? s.threads i ≡ some trying
      → s.throttle.credits ≡ suc n
      → Step s (record s { threads = set s.threads i (loaded n) })
  load_zero :
      (i : ℕ)
      → get_elem? s.threads i ≡ some trying
      → s.throttle.credits ≡ 0
      → Step s (record s { threads = set s.threads i refused })
  exchange :
      (i n : ℕ)
      → get_elem? s.threads i ≡ some (loaded n)
      → s.throttle.credits ≡ suc n
      → Step s (record s {
        throttle = record (s.throttle) { credits = n };
        threads = set s.threads i consumed;
        taken = s.taken + 1;
      })
  exchange_fails :
      (i n : ℕ)
      → get_elem? s.threads i ≡ some (loaded n)
      → Step s (record s { threads = set s.threads i trying })
  call_replenish :
      (amount : ℕ)
      → Step s (record s {
        throttle = replenish amount s.throttle;
        returned = s.returned + min amount s.throttle.window;
      })
  call_reset : Step s (record s { throttle = reset s.throttle; taken = 0; returned = 0 })

pub data Reach (s : Shared) : Shared → Type 0 where
  here : Reach s s
  next : {t u : Shared} → Reach s t → Step t u → Reach s u
