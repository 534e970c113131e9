-- ===== src/Core/Memory.antt =====
-- core/src/memory/budget.rs: bytes in use against a budget.
pub mod Balance
mod Tests
use nendi.Common.{ℕ, ◌+◌, ◌-◌, ◌%◌, Bool, ltb, u64_mod}

-- The warning threshold is a floating-point number and left out.
pub record MemoryBudget : Type 0 where
  pub budget_bytes : ℕ
  pub used : ℕ

unfoldable pub new : ℕ → MemoryBudget
new budget_bytes = record { budget_bytes = budget_bytes; used = 0 }

-- `fetch_add` wraps, at the 64 bits of a `usize`.
unfoldable pub allocate : ℕ → MemoryBudget → MemoryBudget
allocate bytes m = record m { used = (m.used + bytes) % u64_mod }

-- `fetch_sub` wraps, and `bytes` fits a `usize`.
unfoldable pub deallocate : ℕ → MemoryBudget → MemoryBudget
deallocate bytes m = record m { used = (m.used + (u64_mod - bytes)) % u64_mod }

unfoldable pub is_exceeded : MemoryBudget → Bool
is_exceeded m = ltb m.budget_bytes m.used

unfoldable pub remaining : MemoryBudget → ℕ
remaining m = m.budget_bytes - m.used
