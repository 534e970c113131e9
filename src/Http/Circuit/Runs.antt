-- ===== src/Http/Circuit/Runs.antt =====
-- The breaker's states over any sequence of calls.
use nendi.Common.{
  ℕ, ◌+◌, ◌-◌, ◌%◌, ◌<◌, ◌≢◌, refl, arith, Bool-cases, inl, inr, Option, none, some, List, [], ◌∷◌,
  leb, u32_mod,
}
use nendi.Http.Circuit.{
  Instant, CircuitState, CircuitBreaker, new, try_probe, allow_in, allow_request, success_in,
  on_success, failure_in, on_failure,
}

pub data Call : Type 0 where
  request : Instant → Call
  success : Call
  failure : Instant → Call

unfoldable pub call : Call → CircuitBreaker → CircuitBreaker
call (request now) b = (allow_request now b).1
call success b = on_success b
call (failure now) b = on_failure now b

unfoldable pub run : List Call → CircuitBreaker → CircuitBreaker
run [] b = b
run (c ∷ cs) b = run cs (call c b)

-- What the fields say of each other: a closed breaker has failed fewer times in a row than the
-- threshold, and one that is not closed knows when it was opened.
abbrev pub IsIn : CircuitState → CircuitBreaker → Type 0
IsIn CircuitState.closed b = b.failure_count < b.failure_threshold
IsIn CircuitState.opened b = b.opened_at ≢ none
IsIn CircuitState.half_open b = b.opened_at ≢ none

-- The threshold is a positive `u32`.
pub record IsBreaker (b : CircuitBreaker) : Type 0 where
  pub state : IsIn b.state b
  pub positive : 0 < b.failure_threshold
  pub word : b.failure_threshold < u32_mod

abbrev pub breaker : CircuitState → ℕ → ℕ → ℕ → Option Instant → CircuitBreaker
breaker s count threshold timeout at = record {
  state = s;
  failure_count = count;
  failure_threshold = threshold;
  recovery_timeout = timeout;
  opened_at = at;
}

request-IsBreaker :
    (now : Instant) (s : CircuitState) (count threshold timeout : ℕ) (at : Option Instant)
    → IsBreaker (breaker s count threshold timeout at)
    → IsBreaker (allow_request now (breaker s count threshold timeout at)).1
unfolding allow_request allow_in try_probe
request-IsBreaker now CircuitState.closed count threshold timeout at h = h
request-IsBreaker now CircuitState.half_open count threshold timeout at h = h
request-IsBreaker now CircuitState.opened count threshold timeout none h = absurd (h.state refl)
request-IsBreaker now CircuitState.opened count threshold timeout (some t) h =
    elim (Bool-cases (leb timeout (now - t))) [
      | inl due ↦ rw due (record { state = h.state; positive = h.positive; word = h.word })
      | inr early ↦ rw early h
    ]

success-IsBreaker :
    (s : CircuitState) (count threshold timeout : ℕ) (at : Option Instant)
    → IsBreaker (breaker s count threshold timeout at)
    → IsBreaker (on_success (breaker s count threshold timeout at))
unfolding on_success success_in
success-IsBreaker CircuitState.closed count threshold timeout at h = record {
  state = h.positive;
  positive = h.positive;
  word = h.word;
}
success-IsBreaker CircuitState.half_open count threshold timeout at h = record {
  state = h.positive;
  positive = h.positive;
  word = h.word;
}
success-IsBreaker CircuitState.opened count threshold timeout at h = record {
  state = h.state;
  positive = h.positive;
  word = h.word;
}

failure-IsBreaker :
    (now : Instant) (s : CircuitState) (count threshold timeout : ℕ) (at : Option Instant)
    → IsBreaker (breaker s count threshold timeout at)
    → IsBreaker (on_failure now (breaker s count threshold timeout at))
unfolding on_failure failure_in
failure-IsBreaker now CircuitState.closed count threshold timeout at h =
    elim (Bool-cases (leb threshold ((count + 1) % u32_mod))) [
      | inl trips ↦ rw trips (record { state = λ p. cc; positive = h.positive; word = h.word })
      | inr stays ↦ rw stays (record { state = ground arith; positive = h.positive; word = h.word })
    ]
failure-IsBreaker now CircuitState.half_open count threshold timeout at h = record {
  state = λ p. cc;
  positive = h.positive;
  word = h.word;
}
failure-IsBreaker now CircuitState.opened count threshold timeout at h = record {
  state = h.state;
  positive = h.positive;
  word = h.word;
}

call-IsBreaker : (c : Call) (b : CircuitBreaker) → IsBreaker b → IsBreaker (call c b)
unfolding call
call-IsBreaker (request now) b h =
    request-IsBreaker now b.state b.failure_count b.failure_threshold b.recovery_timeout b.opened_at
      h
call-IsBreaker success b h =
    success-IsBreaker b.state b.failure_count b.failure_threshold b.recovery_timeout b.opened_at h
call-IsBreaker (failure now) b h =
    failure-IsBreaker now b.state b.failure_count b.failure_threshold b.recovery_timeout b.opened_at
      h

run_keeps-IsBreaker : (cs : List Call) (b : CircuitBreaker) → IsBreaker b → IsBreaker (run cs b)
unfolding run
run_keeps-IsBreaker [] b h = h
run_keeps-IsBreaker (c ∷ cs) b h = run_keeps-IsBreaker cs (call c b) (call-IsBreaker c b h)

-- Whatever requests, successes and failures a new breaker with a positive `u32` threshold sees, and
-- whenever: while it is closed it counts fewer failures than the threshold, and while it is not it
-- knows when it was opened.
pub run-IsBreaker :
    (threshold timeout : ℕ) (cs : List Call)
    → 0 < threshold
    → threshold < u32_mod
    → IsBreaker (run cs (new threshold timeout))
unfolding new
run-IsBreaker threshold timeout cs positive word =
    run_keeps-IsBreaker cs (new threshold timeout)
      (record { state = positive; positive = positive; word = word })
