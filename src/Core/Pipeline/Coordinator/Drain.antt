-- ===== src/Core/Pipeline/Coordinator/Drain.antt =====
-- The loop of `drain_ring`, and what it moves from the ring into the batch.
use nendi.Common.{
  ◌^◌, ◌%◌, ℕ, zero, suc, ◌+◌, ◌<◌, ◌≡◌, refl, arith, none, some, List, [], ◌∷◌, ◌++◌, length, ap,
  ◌∙◌, sym, append-nil, append_assoc, add_u64,
}
use nendi.Common.Options.{map_option}
use nendi.Shared.Event.{ChangeEvent, estimated_size}
use nendi.Shared.Queue.{ArrayQueue, RingBuffer, IsRing, items}
use nendi.Shared.Queue
use nendi.Shared.Queue.Refine.{spec_pop, try_pop_lem}
use nendi.Core.Pipeline.Batch
use nendi.Core.Pipeline.Flush
use nendi.Core.Pipeline.Batch.Bounds.{IsExact, push-IsExact}
use nendi.Core.Pipeline.Coordinator.{PipelineCoordinator, take_event, drain_loop, drain_ring}

module _ (aq : ArrayQueue ChangeEvent) (size_of_event : ℕ) where
  abbrev Coordinator : Type 0
  Coordinator = PipelineCoordinator aq size_of_event

  -- The invariant: the batch's bounds and byte count are exact, and the flush policy counts the same
  -- bytes as the batch.
  pub record IsConsistent (c : Coordinator) : Type 0 where
    pub ring : IsRing aq c.ring
    pub batch : IsExact size_of_event c.current_batch
    pub bytes : c.flush_policy.current_bytes ≡ c.current_batch.total_bytes

  -- What popping all of `xs` off the ring has done to `c`, where `count` events were popped before.
  pub record Drained (c : Coordinator) (xs : List ChangeEvent) (count : ℕ) (p : Coordinator × ℕ)
      : Type 0 where
    pub consistent : IsConsistent p.0
    pub empty : items aq (p.0).ring ≡ []
    pub events : (p.0).current_batch.events ≡ c.current_batch.events ++ xs
    pub popped : p.1 ≡ count + length xs
    pub batches : (p.0).batches_flushed ≡ c.batches_flushed
    pub processed : (p.0).events_processed ≡ c.events_processed

  take_event-IsConsistent :
      (e : ChangeEvent) (r : RingBuffer aq) (c : Coordinator)
      → IsRing aq r
      → IsConsistent c
      → IsConsistent (take_event aq size_of_event e r c)
  unfolding take_event Batch.push Flush.accumulate
  take_event-IsConsistent e r c vr v = record {
    ring = vr;
    batch = push-IsExact size_of_event e c.current_batch v.batch;
    bytes = ap (λ t. add_u64 t (estimated_size size_of_event e)) v.bytes;
  }

  drain_loop_lem :
      (xs : List ChangeEvent) (fuel count : ℕ) (c : Coordinator)
      → items aq c.ring ≡ xs
      → length xs < fuel
      → IsConsistent c
      → (p : Coordinator × ℕ) × (drain_loop aq size_of_event fuel c count ≡ some p)
        × Drained c xs count p
  unfolding drain_loop spec_pop
  drain_loop_lem xs zero count c held h v = absurd (omega arith)
  drain_loop_lem [] (suc fuel) count c held h v =
      let (item, kept, ring, cap) = try_pop_lem aq c.ring v.ring in
      let none_left : (Queue.try_pop aq c.ring).0 ≡ none = item ∙ ap (λ t. (spec_pop t).0) held in
      let c' : Coordinator = record c { ring = (Queue.try_pop aq c.ring).1 } in
      (
        (c', count),
        rw (none_left, drain_loop),
        record {
          consistent = record { ring = ring; batch = v.batch; bytes = v.bytes };
          empty = kept ∙ ap (λ t. (spec_pop t).1) held;
          events = sym (append-nil c.current_batch.events);
          popped = omega arith;
          batches = refl;
          processed = refl;
        },
      )
  drain_loop_lem (x ∷ xs) (suc fuel) count c held h v =
      let (item, kept, ring, cap) = try_pop_lem aq c.ring v.ring in
      let r' : RingBuffer aq = (Queue.try_pop aq c.ring).1 in
      let next : (Queue.try_pop aq c.ring).0 ≡ some x = item ∙ ap (λ t. (spec_pop t).0) held in
      let c' : Coordinator = take_event aq size_of_event x r' c in
      let (p, run, done) =
        drain_loop_lem xs fuel (count + 1) c'
          (kept_ring x r' c ∙ kept ∙ ap (λ t. (spec_pop t).1) held) (omega arith)
          (take_event-IsConsistent x r' c ring v) in
      (
        p,
        rw (next, drain_loop) run,
        record {
          consistent = done.consistent;
          empty = done.empty;
          events = done.events ∙ taken x r' c xs;
          popped = omega (arith, done.popped);
          batches = done.batches ∙ kept_batches x r' c;
          processed = done.processed ∙ kept_processed x r' c;
        },
      )
    where
      kept_ring :
          (x : ChangeEvent) (r : RingBuffer aq) (c : Coordinator)
          → items aq (take_event aq size_of_event x r c).ring ≡ items aq r
      kept_ring x r c = unfold take_event in refl

      kept_batches :
          (x : ChangeEvent) (r : RingBuffer aq) (c : Coordinator)
          → (take_event aq size_of_event x r c).batches_flushed ≡ c.batches_flushed
      kept_batches x r c = unfold take_event in refl

      kept_processed :
          (x : ChangeEvent) (r : RingBuffer aq) (c : Coordinator)
          → (take_event aq size_of_event x r c).events_processed ≡ c.events_processed
      kept_processed x r c = unfold take_event in refl

      taken :
          (x : ChangeEvent) (r : RingBuffer aq) (c : Coordinator) (xs : List ChangeEvent)
          → (take_event aq size_of_event x r c).current_batch.events ++ xs
            ≡ c.current_batch.events ++ (x ∷ xs)
      taken x r c xs =
          unfold take_event Batch.push in append_assoc c.current_batch.events (x ∷ []) xs

  -- From a consistent coordinator `drain_ring` always ends. It leaves the ring empty, has appended
  -- what the ring held to the batch, in order, returns how many events that were, adds that number to
  -- `events_processed` modulo 2 ^ 64, flushes nothing, and leaves the coordinator consistent.
  pub drain_ring_lem :
      (c : Coordinator)
      → IsConsistent c
      → (c' : Coordinator) × (drain_ring aq size_of_event c ≡ some (c', length (items aq c.ring)))
        × IsConsistent c'
        × (items aq c'.ring ≡ [])
        × (c'.current_batch.events ≡ c.current_batch.events ++ items aq c.ring)
        × (c'.events_processed ≡ (c.events_processed + length (items aq c.ring)) % 2 ^ 64)
        × (c'.batches_flushed ≡ c.batches_flushed)
  unfolding drain_ring Queue.len
  drain_ring_lem c v =
      let enough : length (items aq c.ring) < suc (aq.len c.ring.inner) =
        omega (arith, aq.len_lem c.ring.inner) in
      let (p, run, done) = drain_loop_lem (items aq c.ring) _ 0 c refl enough v in
      let n : p.1 ≡ length (items aq c.ring) = omega (arith, done.popped) in
      (
        record (p.0) { events_processed = add_u64 (p.0).events_processed p.1 },
        rw (run, map_option) (rw n),
        record {
          ring = done.consistent.ring;
          batch = done.consistent.batch;
          bytes = done.consistent.bytes;
        },
        done.empty,
        done.events,
        omega (arith, done.popped, done.processed),
        done.batches,
      )
