-- ===== src/Core/Pipeline/Coordinator/Tests.antt =====
-- The pipeline's theorems on a small ring.
use nendi.Common.{◌≡◌, ◌+◌, ◌%◌, ◌^◌, refl, some, List, [], ◌∷◌}
use nendi.Shared.Event.{ChangeEvent}
use nendi.Shared.Event.Samples.{order_at}
use nendi.Shared.Queue.{RingBuffer, items}
use nendi.Shared.Queue.ListQueue.{list_queue}
use nendi.Core.Pipeline.Batch
use nendi.Core.Pipeline.Batch.Bounds.{new-IsExact}
use nendi.Core.Pipeline.Flush.{FlushPolicy}
use nendi.Core.Pipeline.Coordinator.{PipelineCoordinator, drain_ring}
use nendi.Core.Pipeline.Coordinator.Drain.{IsConsistent, drain_ring_lem}
use nendi.Core.Pipeline.Coordinator.History.{
  Op, produce, drain, flush_if_due, flush, History, run, start,
}
use nendi.Core.Pipeline.Coordinator.Conserved.{Conserved, run_conserves}

abbrev small_ring : List ChangeEvent → RingBuffer (list_queue ChangeEvent)
small_ring es = record { inner = record { cells = es; size = 2 }; capacity = 2 }

abbrev policy : FlushPolicy
policy = record {
  max_bytes = 4096;
  max_age_us = 500;
  current_bytes = 0;
  last_flush = 0;
  flush_count = 0;
}

abbrev script : List Op
script =
    produce (order_at 7 1)
    ∷ produce (order_at 9 1)
    ∷ produce (order_at 8 2)
    ∷ drain
    ∷ flush_if_due 1000
    ∷ produce (order_at 10 2)
    ∷ flush 2000
    ∷ []

run_conserves_example :
    (h : History (list_queue ChangeEvent) 200) × (run
        (list_queue ChangeEvent)
        200
        script
        (start (list_queue ChangeEvent) 200 (small_ring []) policy)
      ≡ some h)
    × Conserved (list_queue ChangeEvent) 200 h
run_conserves_example =
    run_conserves (list_queue ChangeEvent) 200 script (small_ring []) policy refl refl refl

abbrev waiting : PipelineCoordinator (list_queue ChangeEvent) 200
waiting = record {
  ring = small_ring (order_at 7 1 ∷ order_at 9 1 ∷ []);
  flush_policy = policy;
  current_batch = Batch.new;
  events_processed = 5;
  batches_flushed = 1;
}

waiting-IsConsistent : IsConsistent (list_queue ChangeEvent) 200 waiting
waiting-IsConsistent = record { ring = refl; batch = new-IsExact 200; bytes = refl }

drain_ring_lem_example :
    (c : PipelineCoordinator (list_queue ChangeEvent) 200) × (drain_ring
        (list_queue ChangeEvent)
        200
        waiting
      ≡ some (c, 2))
    × IsConsistent (list_queue ChangeEvent) 200 c
    × (items (list_queue ChangeEvent) c.ring ≡ [])
    × (c.current_batch.events ≡ order_at 7 1 ∷ order_at 9 1 ∷ [])
    × (c.events_processed ≡ (5 + 2) % 2 ^ 64)
    × (c.batches_flushed ≡ 1)
drain_ring_lem_example = drain_ring_lem (list_queue ChangeEvent) 200 waiting waiting-IsConsistent

abbrev three : List ChangeEvent
three = order_at 7 1 ∷ order_at 9 1 ∷ order_at 8 2 ∷ []
