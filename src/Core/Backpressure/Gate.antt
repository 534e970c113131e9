-- ===== src/Core/Backpressure/Gate.antt =====
-- core/src/backpressure/gate.rs: the gate, as the accesses to shared memory that its calls make.
pub mod Calls
pub mod Race
use nendi.Common.{ℕ, Bool, true, false, Option, none, some, List, [], ◌∷◌, add_u64}

pub data PauseReason : Type 0 where
  ring_buffer_full memory_budget_exceeded wal_lag_hard_cap manual : PauseReason

-- Clones of a gate share it.
pub record BackpressureGate : Type 0 where
  pub is_open : Bool
  pub reason : Option PauseReason
  pub close_count : ℕ

abbrev pub new : BackpressureGate
new = record { is_open = true; reason = none; close_count = 0 }

-- One atomic access; the mutex around the reason makes its write one.
pub data Access : Type 0 where
  store_open : Bool → Access
  add_close : Access
  store_reason : Option PauseReason → Access

unfoldable pub access : Access → BackpressureGate → BackpressureGate
access (store_open b) g = record g { is_open = b }
access add_close g = record g { close_count = add_u64 g.close_count 1 }
access (store_reason r) g = record g { reason = r }

unfoldable pub close : PauseReason → List Access
close reason = store_open false ∷ (add_close ∷ (store_reason (some reason) ∷ []))

unfoldable pub open_gate : List Access
open_gate = store_open true ∷ (store_reason none ∷ [])
