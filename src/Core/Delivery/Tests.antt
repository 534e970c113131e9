-- ===== src/Core/Delivery/Tests.antt =====
-- Delivery at concrete events.
use nendi.Common.{
  be, All, lex_ltb, ◌≤◌, ◌≡◌, ◌↔◌, refl, arith, max, List, [], ◌∷◌, ◌++◌, some, map, take, codes,
  lookup, text_eq,
}
use nendi.Common.Cursor.{ok}
use nendi.Shared.Lsn.{to_be_bytes}
use nendi.Shared.Event.{estimated_size, ChangeEvent}
use nendi.Shared.Event.Samples.{order_at}
use nendi.Shared.Proto.Samples.{order-IsWireEvent}
use nendi.Shared.Queue.{RingBuffer, items}
use nendi.Shared.Queue
use nendi.Shared.Queue.ListQueue.{list_queue}
use nendi.Core.Pipeline.Batch
use nendi.Core.Pipeline.Batch.{WriteBatch}
use nendi.Core.Pipeline.Flush
use nendi.Core.Pipeline.Flush.{FlushPolicy}
use nendi.Core.Pipeline.Coordinator.History.{
  to_list, hand_over, note_accepted, offer, step, Op, produce, drain, flush_if_due, flush,
  flushed_events, History, run, start,
}
use nendi.Core.Pipeline.Coordinator.{
  drain_ring, drain_loop, take_event, take_batch, maybe_flush, force_flush,
}
use nendi.Core.Storage.Store.SortedList.{put}
use nendi.Core.Pipeline.Coordinator
use nendi.Core.Storage.Gc.{filter, new_filter, discard}
use nendi.Core.Offset.{OffsetRegistry, get, min_offset, min_loop, resume_lsn}
use nendi.Core.Storage.Keys.{make_key}
use nendi.Core.Storage.Store.{write_batch, Entry, Among, IsSorted, entry, from_key, read_from}
use nendi.Core.Storage.Store.Entries.{IsEntry, latest}
use nendi.Core.Storage.Store.ReadBack.{write_all}
use nendi.Core.Storage.Store.SortedStore.{sorted_store, put_all, put_all-IsSorted}
use nendi.Core.Delivery.Flushed.{batch_events, run_delivers, delivered_read_back}
use nendi.Core.Delivery.Compacted.{Compaction, done, kept, removed, read_from-compacted}

abbrev ring : RingBuffer (list_queue ChangeEvent)
ring = record { inner = record { cells = []; size = 2 }; capacity = 2 }

abbrev policy : FlushPolicy
policy = record {
  max_bytes = 4096;
  max_age_us = 500;
  current_bytes = 0;
  last_flush = 0;
  flush_count = 0;
}

abbrev script : List Op
script = produce (order_at 30 1) ∷ drain ∷ flush_if_due 900 ∷ produce (order_at 20 1) ∷ []

run_delivers_example :
    (h : History (list_queue ChangeEvent) 200) × (run
        (list_queue ChangeEvent)
        200
        (script ++ (drain ∷ flush 1000 ∷ []))
        (start (list_queue ChangeEvent) 200 ring policy)
      ≡ some h)
    × (items (list_queue ChangeEvent) h.coordinator.ring ≡ [])
    × (h.coordinator.current_batch.events ≡ [])
    × (flushed_events h.flushed ≡ h.accepted)
run_delivers_example =
    run_delivers (list_queue ChangeEvent) 200 script 1000 ring policy refl refl refl

abbrev two : List ChangeEvent
two = order_at 30 1 ∷ order_at 20 1 ∷ []

abbrev batch : WriteBatch
batch = Batch.push 200 (order_at 20 1) (Batch.push 200 (order_at 30 1) Batch.new)

abbrev ended : History (list_queue ChangeEvent) 200
ended = record {
  coordinator = record {
    ring = ring;
    flush_policy = record policy { last_flush = 1000; flush_count = 1 };
    current_batch = Batch.new;
    events_processed = 2;
    batches_flushed = 1;
  };
  accepted = two;
  flushed = batch ∷ [];
}

script_runs :
    run
      (list_queue ChangeEvent)
      200
      (script ++ (drain ∷ flush 1000 ∷ []))
      (start (list_queue ChangeEvent) 200 ring policy)
    ≡ some ended
unfolding run start step offer note_accepted hand_over to_list drain_ring drain_loop take_event
    take_batch maybe_flush force_flush Coordinator.new Queue.try_push Queue.try_pop Queue.len
    Batch.push Batch.is_empty Flush.accumulate Flush.should_flush Flush.age_us Flush.mark_flushed
    estimated_size
script_runs = refl

abbrev empty : sorted_store.Db
empty = ([], tt)

abbrev puts : List Entry
puts = map entry two

abbrev written : sorted_store.Db
written = (put_all puts [], put_all-IsSorted puts [] tt)

-- The keys are sorted.
stored : put_all puts [] ≡ entry (order_at 20 1) ∷ entry (order_at 30 1) ∷ []
unfolding put_all put entry lex_ltb make_key be to_be_bytes text_eq
stored = refl

delivered_read_back_example :
    (es : List ChangeEvent) × (read_from sorted_store 200 25 9 written ≡ ok (take (max 1 9) es))
    × IsSorted (map entry es)
    × ((e : ChangeEvent) → Among e es ↔ ((latest (make_key e) two ≡ some e) × (25 ≤ e.lsn)))
delivered_read_back_example =
    delivered_read_back (list_queue ChangeEvent) 200 sorted_store script 1000 ring policy ended
      empty written (from_key (to_be_bytes 25) written.0) 25 9 (omega arith) refl refl refl
      (order-IsWireEvent 30 (omega arith), (tt, (tt, (order-IsWireEvent 20 (omega arith), tt))))
      script_runs refl (unfold write_all write_batch batch_events Batch.push in refl) (omega arith)
      refl

abbrev one_consumer : OffsetRegistry
one_consumer = (codes "audit", 25) ∷ []

audit_offset : get (codes "audit") one_consumer ≡ some 25
unfolding get lookup text_eq
audit_offset = refl

-- The compaction has removed the event at 20.
abbrev rest : List Entry
rest = entry (order_at 30 1) ∷ []

discarded : filter (new_filter (min_offset one_consumer)) (make_key (order_at 20 1)) ≡ discard
unfolding min_offset min_loop filter new_filter to_be_bytes make_key be lex_ltb
discarded = refl

compacted_puts : Compaction (new_filter (min_offset one_consumer)) written.0 rest
unfolding entry
compacted_puts = rw stored (removed discarded (kept done))

entries : All IsEntry written.0
entries = rw stored (
  (order_at 20 1, order-IsWireEvent 20 (omega arith), refl),
  ((order_at 30 1, order-IsWireEvent 30 (omega arith), refl), tt),
)

read_from-compacted_example :
    read_from sorted_store 200 (resume_lsn (codes "audit") one_consumer) 9 (rest, (tt, tt))
    ≡ read_from sorted_store 200 (resume_lsn (codes "audit") one_consumer) 9 written
read_from-compacted_example =
    read_from-compacted sorted_store one_consumer (codes "audit") 25 written (rest, (tt, tt))
      (from_key (to_be_bytes (resume_lsn (codes "audit") one_consumer)) written.0)
      (from_key (to_be_bytes (resume_lsn (codes "audit") one_consumer)) rest) 200 9 audit_offset
      (omega arith) entries compacted_puts refl refl
