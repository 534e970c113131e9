-- ===== src/Http/Circuit/Probe.antt =====
-- When the breaker opens, and what it lets through while it is open.
use nendi.Common.{
  ℕ, ◌+◌, ◌-◌, ◌<◌, ◌≤◌, ◌≡◌, refl, arith, Bool, true, false, Bool-cases, inl, inr, Option, none,
  some, List, [], ◌∷◌, ◌++◌, length, All, leb, if◌then◌else◌, u32_mod,
}
use nendi.Http.Circuit.{
  Instant, CircuitState, CircuitBreaker, new, try_probe, allow_in, allow_request, failure_in,
  on_failure,
}
use nendi.Http.Circuit.Runs.{Call, failure, call, run, breaker}

unfoldable pub failures : List Instant → List Call
failures [] = []
failures (t ∷ ts) = failure t ∷ failures ts

one_failure :
    (t : Instant) (count threshold timeout : ℕ)
    → count + 1 < threshold
    → threshold < u32_mod
    → on_failure t (breaker CircuitState.closed count threshold timeout none)
      ≡ breaker CircuitState.closed (count + 1) threshold timeout none
unfolding on_failure failure_in
one_failure t count threshold timeout few word = ground arith

last_failure :
    (t : Instant) (count threshold timeout : ℕ)
    → count + 1 ≡ threshold
    → threshold < u32_mod
    → on_failure t (breaker CircuitState.closed count threshold timeout none)
      ≡ breaker CircuitState.opened threshold threshold timeout (some t)
unfolding on_failure failure_in
last_failure t count threshold timeout h word = ground arith

failures_from :
    (ts : List Instant) (t : Instant) (count threshold timeout : ℕ)
    → count + length ts + 1 ≡ threshold
    → threshold < u32_mod
    → run (failures (ts ++ (t ∷ []))) (breaker CircuitState.closed count threshold timeout none)
      ≡ breaker CircuitState.opened threshold threshold timeout (some t)
unfolding run failures call
failures_from [] t count threshold timeout h word =
    last_failure t count threshold timeout (omega arith) word
failures_from (u ∷ ts) t count threshold timeout h word =
    rw (one_failure u count threshold timeout (omega arith) word, run)
      (failures_from ts t (count + 1) threshold timeout (omega arith) word)

-- The failure that makes as many in a row as the threshold, a `u32`, opens a new breaker, and its time
-- is kept as the time of the opening.
pub run-failures :
    (ts : List Instant) (t : Instant) (threshold timeout : ℕ)
    → length ts + 1 ≡ threshold
    → threshold < u32_mod
    → run (failures (ts ++ (t ∷ []))) (new threshold timeout)
      ≡ breaker CircuitState.opened threshold threshold timeout (some t)
unfolding new
run-failures ts t threshold timeout h word =
    failures_from ts t 0 threshold timeout (omega arith) word

-- The answers to requests at these times.
unfoldable pub answers : List Instant → CircuitBreaker → List Bool
answers [] b = []
answers (t ∷ ts) b = (allow_request t b).0 ∷ answers ts (allow_request t b).1

unfoldable pub refusals : List Instant → List Bool
refusals [] = []
refusals (t ∷ ts) = false ∷ refusals ts

-- One request, the first that is due, is let through.
unfoldable pub one_probe : Instant → List Instant → List Bool
one_probe due [] = []
one_probe due (t ∷ ts) = if leb due t then true ∷ refusals ts else false ∷ one_probe due ts

half_open_refuses :
    (ts : List Instant) (count threshold timeout : ℕ) (at : Option Instant)
    → answers ts (breaker CircuitState.half_open count threshold timeout at) ≡ refusals ts
unfolding answers refusals allow_request allow_in
half_open_refuses [] count threshold timeout at = refl
half_open_refuses (t ∷ ts) count threshold timeout at =
    rw (half_open_refuses ts count threshold timeout at) refl

-- While no result is reported, a breaker that was opened refuses every request before its recovery
-- timeout has passed, lets the first one after that through, and refuses all others for good. The
-- clock is monotonic: no request comes before the opening.
pub answers-opened :
    (ts : List Instant) (count threshold timeout : ℕ) (opened_at : Instant)
    → All (λ t. opened_at ≤ t) ts
    → answers ts (breaker CircuitState.opened count threshold timeout (some opened_at))
      ≡ one_probe (opened_at + timeout) ts
unfolding answers one_probe allow_request allow_in try_probe
answers-opened [] count threshold timeout opened_at h = refl
answers-opened (t ∷ ts) count threshold timeout opened_at (later, h) =
    elim (Bool-cases (leb timeout (t - opened_at))) [
      | inl due ↦
          let same : leb (opened_at + timeout) t ≡ true = ground arith in
          rw (due, same, if◌then◌else◌)
            (rw (half_open_refuses ts count threshold timeout (some opened_at)) refl)
      | inr early ↦
          let same : leb (opened_at + timeout) t ≡ false = ground arith in
          rw (early, same, if◌then◌else◌)
            (rw (answers-opened ts count threshold timeout opened_at h) refl)
    ]
