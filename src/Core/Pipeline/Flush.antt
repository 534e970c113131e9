-- ===== src/Core/Pipeline/Flush.antt =====
-- core/src/pipeline/flush.rs: when a batch is due.
use nendi.Common.{ℕ, ◌-◌, ◌/◌, ◌%◌, ◌^◌, Bool, true, ◌&&◌, ltb, leb, if◌then◌else◌, add_u64}

-- An `Instant` is the number of nanoseconds on the monotonic clock; each function that reads the
-- clock takes the reading.
abbrev pub Instant : Type 0
Instant = ℕ

pub record FlushPolicy : Type 0 where
  pub max_bytes : ℕ
  pub max_age_us : ℕ
  pub current_bytes : ℕ
  pub last_flush : Instant
  pub flush_count : ℕ

unfoldable pub new : ℕ → ℕ → Instant → FlushPolicy
new max_bytes max_age_us now = record {
  max_bytes = max_bytes;
  max_age_us = max_age_us;
  current_bytes = 0;
  last_flush = now;
  flush_count = 0;
}

unfoldable pub accumulate : ℕ → FlushPolicy → FlushPolicy
accumulate bytes p = record p { current_bytes = add_u64 p.current_bytes bytes }

-- `last_flush.elapsed().as_micros() as u64`; an elapsed time is never negative.
unfoldable pub age_us : Instant → FlushPolicy → ℕ
age_us now p = (now - p.last_flush) / 1000 % 2 ^ 64

unfoldable pub should_flush : Instant → FlushPolicy → Bool
should_flush now p =
    if leb p.max_bytes p.current_bytes
    then true
    else leb p.max_age_us (age_us now p) && ltb 0 p.current_bytes

unfoldable pub mark_flushed : Instant → FlushPolicy → FlushPolicy
mark_flushed now p = record p {
  current_bytes = 0;
  last_flush = now;
  flush_count = add_u64 p.flush_count 1;
}
