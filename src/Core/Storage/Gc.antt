-- ===== src/Core/Storage/Gc.antt =====
-- core/src/storage/gc and rocks/compaction.rs: what may be discarded.
pub mod Safety
use nendi.Common.{
  ℕ, ◌≤◌, Bool, ◌&&◌, [], Option, none, some, Text, Bytes, Dict, insert, remove, text_eq_instance,
  take, length, leb, lex_ltb, if◌then◌else◌, add_u64,
}
use nendi.Shared.Lsn.{Lsn, zero_lsn, is_ahead_of, to_be_bytes}
use nendi.Core.Offset.{min_offset}

-- `WatermarkTracker`: the confirmed LSN of each consumer. `watermark` has the body of
-- `OffsetRegistry::min_offset`.
abbrev pub WatermarkTracker : Type 0
WatermarkTracker = Dict Text Lsn

unfoldable pub update : Text → Lsn → WatermarkTracker → WatermarkTracker
update consumer_id lsn w = insert consumer_id lsn w

unfoldable pub forget : Text → WatermarkTracker → WatermarkTracker
forget consumer_id w = remove consumer_id w

unfoldable pub watermark : WatermarkTracker → Lsn
watermark w = min_offset w

-- The interval between checks is the caller's to keep.
pub record GcScheduler : Type 0 where
  pub tracker : WatermarkTracker
  pub last_gc_watermark : Lsn
  pub gc_runs : ℕ

abbrev pub new : GcScheduler
new = record { tracker = []; last_gc_watermark = zero_lsn; gc_runs = 0 }

unfoldable pub maybe_gc : GcScheduler → Option Lsn × GcScheduler
maybe_gc g =
    let current = watermark g.tracker in
    if is_ahead_of current g.last_gc_watermark
    then (some current, record g { last_gc_watermark = current; gc_runs = add_u64 g.gc_runs 1 })
    else (none, g)

-- RocksDB's answer for one key during a compaction.
pub data Decision : Type 0 where
  keep discard : Decision

pub record EventGcFilter : Type 0 where
  pub watermark_lsn_bytes : Bytes

unfoldable pub new_filter : Lsn → EventGcFilter
new_filter watermark_lsn = record { watermark_lsn_bytes = to_be_bytes watermark_lsn }

unfoldable pub filter : EventGcFilter → Bytes → Decision
filter f key =
    if leb 8 (length key) && lex_ltb (take 8 key) f.watermark_lsn_bytes then discard else keep
