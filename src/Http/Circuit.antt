-- ===== src/Http/Circuit.antt =====
-- http/src/egress/webhook/circuit.rs: the circuit breaker of a webhook endpoint.
pub mod Runs
pub mod Probe
mod Tests
use nendi.Common.{
  ℕ, ◌+◌, ◌-◌, ◌%◌, Bool, true, false, Option, none, some, leb, if◌then◌else◌, u32_mod,
}

-- Microseconds on a monotonic clock. A `Duration` is a number of these too.
abbrev pub Instant : Type 0
Instant = ℕ

pub data CircuitState : Type 0 where
  closed opened half_open : CircuitState

pub record CircuitBreaker : Type 0 where
  pub state : CircuitState
  pub failure_count : ℕ
  pub failure_threshold : ℕ
  pub recovery_timeout : ℕ
  pub opened_at : Option Instant

unfoldable pub new : ℕ → ℕ → CircuitBreaker
new failure_threshold recovery_timeout = record {
  state = CircuitState.closed;
  failure_count = 0;
  failure_threshold = failure_threshold;
  recovery_timeout = recovery_timeout;
  opened_at = none;
}

-- The open state's case: `elapsed()` is zero for an instant that lies ahead.
unfoldable pub try_probe : Instant → Option Instant → CircuitBreaker → Bool × CircuitBreaker
try_probe now none b = (false, b)
try_probe now (some opened_at) b =
    if leb b.recovery_timeout (now - opened_at)
    then (true, record b { state = CircuitState.half_open })
    else (false, b)

allow_in : CircuitState → Instant → CircuitBreaker → Bool × CircuitBreaker
allow_in CircuitState.closed now b = (true, b)
allow_in CircuitState.opened now b = try_probe now b.opened_at b
allow_in CircuitState.half_open now b = (false, b)

unfoldable pub allow_request : Instant → CircuitBreaker → Bool × CircuitBreaker
unfolding allow_in
allow_request now b = allow_in b.state now b

success_in : CircuitState → CircuitBreaker → CircuitBreaker
success_in CircuitState.half_open b = record b {
  state = CircuitState.closed;
  failure_count = 0;
  opened_at = none;
}
success_in _ b = record b { failure_count = 0 }

unfoldable pub on_success : CircuitBreaker → CircuitBreaker
unfolding success_in
on_success b = success_in b.state b

failure_in : CircuitState → Instant → CircuitBreaker → CircuitBreaker
failure_in CircuitState.closed now b =
    if leb b.failure_threshold b.failure_count
    then record b { state = CircuitState.opened; opened_at = some now }
    else b
failure_in CircuitState.half_open now b = record b {
  state = CircuitState.opened;
  opened_at = some now;
}
failure_in CircuitState.opened now b = b

-- The count is a `u32` that wraps in a release build.
unfoldable pub on_failure : Instant → CircuitBreaker → CircuitBreaker
unfolding failure_in
on_failure now b =
    failure_in b.state now (record b { failure_count = (b.failure_count + 1) % u32_mod })
