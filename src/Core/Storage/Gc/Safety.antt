-- ===== src/Core/Storage/Gc/Safety.antt =====
-- The garbage collection against what consumers have still to read.
use nendi.Common.{◌≤◌, ◌<◌, ◌≡◌, arith, none, some, Text, ltb, if◌then◌else◌, ◌∙◌}
use nendi.Shared.Lsn.{Lsn, max_lsn, IsLsn, is_ahead_of, saturating_add, zero_lsn}
use nendi.Shared.Lsn.Order.{lex-to_be_bytes}
use nendi.Shared.Event.{ChangeEvent}
use nendi.Core.Offset.{OffsetRegistry, get, min_offset, resume_lsn, register_consumer}
use nendi.Core.Offset.Commits.{min_offset-le}
use nendi.Core.Storage.Keys.{make_key, take-make_key, length-make_key}
use nendi.Core.Storage.Gc.{GcScheduler, watermark, maybe_gc, keep, discard, new_filter, filter}

-- The filter discards the key of an event exactly when the event's LSN is below the watermark.
pub filter-make_key :
    (w : Lsn) (e : ChangeEvent)
    → IsLsn w
    → IsLsn e.lsn
    → filter (new_filter w) (make_key e) ≡ (if ltb e.lsn w then discard else keep)
unfolding filter new_filter is_ahead_of
filter-make_key w e hw he = rw (length-make_key e, take-make_key e, lex-to_be_bytes w e.lsn hw he)

-- With the watermark of the offset registry, the filter keeps every event from a consumer's resume
-- position on, if the consumer has committed an offset below `Lsn::MAX`.
pub gc_keeps_unread :
    (r : OffsetRegistry) (c : Text) (o : Lsn) (e : ChangeEvent)
    → get c r ≡ some o
    → o < max_lsn
    → IsLsn e.lsn
    → resume_lsn c r ≤ e.lsn
    → filter (new_filter (min_offset r)) (make_key e) ≡ keep
unfolding resume_lsn saturating_add
gc_keeps_unread r c o e committed ho he unread =
    let low = min_offset-le c r committed in
    let from : saturating_add o 1 ≤ e.lsn = rw (committed, resume_lsn) at unread in
    filter-make_key (min_offset r) e (omega arith) he ∙ ground arith

-- A consumer that is registered and has not committed yet resumes at zero, but every event below the
-- other consumers' watermark is discarded all the same.
pub registered_consumer_loses :
    (r : OffsetRegistry) (c : Text) (e : ChangeEvent)
    → get c r ≡ none
    → IsLsn (min_offset r)
    → e.lsn < min_offset r
    → (resume_lsn c (register_consumer c r) ≡ zero_lsn)
      × (filter (new_filter (min_offset (register_consumer c r))) (make_key e) ≡ discard)
unfolding resume_lsn register_consumer
registered_consumer_loses r c e fresh hm below =
    (rw (fresh, resume_lsn), filter-make_key (min_offset r) e hm (omega arith) ∙ ground arith)

-- A run of the scheduler is due exactly when the watermark has passed the last one; it returns that
-- watermark and remembers it, so that the next call does nothing until a consumer's update moves it.
pub maybe_gc_once :
    (g : GcScheduler)
    → ((maybe_gc g).0 ≡ (
        if ltb g.last_gc_watermark (watermark g.tracker) then some (watermark g.tracker) else none))
      × (maybe_gc (maybe_gc g).1 ≡ (none, (maybe_gc g).1))
      × (g.last_gc_watermark ≤ (maybe_gc g).1.last_gc_watermark)
unfolding maybe_gc is_ahead_of
maybe_gc_once g = ground arith
