-- ===== src/Core/Pipeline/Coordinator.antt =====
-- core/src/pipeline/coordinator.rs: ring buffer, batch and flush policy together.
pub mod Drain
pub mod History
pub mod Conserved
mod Tests
use nendi.Common.{
  ℕ, zero, suc, ◌+◌, Bool, true, false, not, ◌&&◌, Option, none, some, List, length, if◌then◌else◌,
  add_u64,
}
use nendi.Common.Options.{map_option}
use nendi.Shared.Event.{ChangeEvent, estimated_size}
use nendi.Shared.Queue.{ArrayQueue, RingBuffer}
use nendi.Shared.Queue
use nendi.Core.Pipeline.Batch
use nendi.Core.Pipeline.Batch.{WriteBatch}
use nendi.Core.Pipeline.Flush
use nendi.Core.Pipeline.Flush.{FlushPolicy, Instant}

module _ (aq : ArrayQueue ChangeEvent) (size_of_event : ℕ) where
  pub record PipelineCoordinator : Type 0 where
    pub ring : RingBuffer aq
    pub flush_policy : FlushPolicy
    pub current_batch : WriteBatch
    pub events_processed : ℕ
    pub batches_flushed : ℕ

  unfoldable pub new : RingBuffer aq → FlushPolicy → PipelineCoordinator
  new ring policy = record {
    ring = ring;
    flush_policy = policy;
    current_batch = Batch.new;
    events_processed = 0;
    batches_flushed = 0;
  }

  -- The body of the loop in `drain_ring`, for an event that was popped off `ring`.
  unfoldable pub take_event :
      ChangeEvent → RingBuffer aq → PipelineCoordinator → PipelineCoordinator
  take_event event ring c = record c {
    ring = ring;
    current_batch = Batch.push size_of_event event c.current_batch;
    flush_policy = Flush.accumulate (estimated_size size_of_event event) c.flush_policy;
  }

  -- `while let Some(event) = self.ring.try_pop()` with fuel; `none` means that the fuel ran out.
  -- The number is `count`.
  unfoldable pub drain_loop : ℕ → PipelineCoordinator → ℕ → Option (PipelineCoordinator × ℕ)
  drain_loop zero c count = none
  drain_loop (suc fuel) c count =
      let (popped, ring) = Queue.try_pop aq c.ring in
      elim popped [
        | none ↦ some (record c { ring = ring }, count)
        | some event ↦ drain_loop fuel (take_event event ring c) (count + 1)
      ]

  -- One round for each event in the ring and one that finds it empty: no producer pushes meanwhile.
  unfoldable pub drain_ring : PipelineCoordinator → Option (PipelineCoordinator × ℕ)
  drain_ring c =
      map_option
        (λ p. (record (p.0) { events_processed = add_u64 (p.0).events_processed p.1 }, p.1))
        (drain_loop (suc (Queue.len aq c.ring)) c 0)

  -- What both flushes do with a batch that is due.
  unfoldable pub take_batch :
      Instant → PipelineCoordinator → Option WriteBatch × PipelineCoordinator
  take_batch now c = (
    some c.current_batch,
    record c {
      current_batch = Batch.new;
      flush_policy = Flush.mark_flushed now c.flush_policy;
      batches_flushed = add_u64 c.batches_flushed 1;
    },
  )

  unfoldable pub maybe_flush :
      Instant → PipelineCoordinator → Option WriteBatch × PipelineCoordinator
  maybe_flush now c =
      if Flush.should_flush now c.flush_policy && not (Batch.is_empty c.current_batch)
      then take_batch now c
      else (none, c)

  unfoldable pub force_flush :
      Instant → PipelineCoordinator → Option WriteBatch × PipelineCoordinator
  force_flush now c = if not (Batch.is_empty c.current_batch) then take_batch now c else (none, c)
