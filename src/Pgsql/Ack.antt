-- ===== src/Pgsql/Ack.antt =====
-- services/pgsql/src/replication/ack.rs: when PostgreSQL is told what positions.
pub mod Report
pub mod Timing
mod Tests
use nendi.Common.{ℕ, ◌-◌, Bool, true, false, ◌&&◌, ◌||◌, leb, if◌then◌else◌}
use nendi.Shared.Lsn.{Lsn, zero_lsn, is_ahead_of}

-- Microseconds on a monotonic clock; the intervals are numbers of these too.
abbrev pub Instant : Type 0
Instant = ℕ

pub record AckManager : Type 0 where
  pub confirmed_flush_lsn : Lsn
  pub received_lsn : Lsn
  pub min_interval : ℕ
  pub max_interval : ℕ
  pub last_ack_time : Instant
  pub dirty : Bool

unfoldable pub new : ℕ → ℕ → Instant → AckManager
new min_interval max_interval now = record {
  confirmed_flush_lsn = zero_lsn;
  received_lsn = zero_lsn;
  min_interval = min_interval;
  max_interval = max_interval;
  last_ack_time = now;
  dirty = false;
}

unfoldable pub advance_received : Lsn → AckManager → AckManager
advance_received lsn a =
    if is_ahead_of lsn a.received_lsn then record a { received_lsn = lsn; dirty = true } else a

unfoldable pub advance_confirmed : Lsn → AckManager → AckManager
advance_confirmed lsn a =
    if is_ahead_of lsn a.confirmed_flush_lsn
    then record a { confirmed_flush_lsn = lsn; dirty = true }
    else a

-- `elapsed()` is zero for an instant that lies ahead.
unfoldable pub should_ack : Instant → AckManager → Bool
should_ack now a =
    let elapsed = now - a.last_ack_time in
    if leb a.max_interval elapsed
    then true
    else if a.dirty && leb a.min_interval elapsed
    then true
    else false

-- Written, flushed and applied.
pub record Status : Type 0 where
  pub write_lsn : Lsn
  pub flush_lsn : Lsn
  pub apply_lsn : Lsn

unfoldable pub build_status_update : Instant → AckManager → Status × AckManager
build_status_update now a = (
  record {
    write_lsn = a.received_lsn;
    flush_lsn = a.confirmed_flush_lsn;
    apply_lsn = a.confirmed_flush_lsn;
  },
  record a { last_ack_time = now; dirty = false },
)
