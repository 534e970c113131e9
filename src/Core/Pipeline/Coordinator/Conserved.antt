-- ===== src/Core/Pipeline/Coordinator/Conserved.antt =====
-- The invariant of whole runs of producers and the coordinator.
use nendi.Common.{
  ℕ, ◌%◌, ◌^◌, ◌≡◌, ◌≢◌, refl, arith, false, none, some, List, [], ◌∷◌, ◌++◌, length, ◌∙◌, sym,
  append-nil, append_assoc, All, All-append, Bool-cases, inl, inr, length-append, ltb,
}
use nendi.Common.Options.{◌>>=◌, map_option}
use nendi.Shared.Event.{ChangeEvent}
use nendi.Shared.Queue.{ArrayQueue, RingBuffer, IsRing, items}
use nendi.Shared.Queue
use nendi.Shared.Queue.Refine.{spec_push, try_push_lem}
use nendi.Core.Pipeline.Batch
use nendi.Core.Pipeline.Batch.{WriteBatch, ne-nil_of_not_empty}
use nendi.Core.Pipeline.Batch.Bounds.{IsExact, new-IsExact}
use nendi.Core.Pipeline.Flush
use nendi.Core.Pipeline.Flush.{FlushPolicy, Instant}
use nendi.Core.Pipeline.Coordinator.{new, take_batch, maybe_flush, force_flush}
use nendi.Core.Pipeline.Coordinator.Drain.{IsConsistent, drain_ring_lem}
use nendi.Core.Pipeline.Coordinator.History.{
  Op, produce, drain, flush_if_due, flush, flushed_events, note_accepted, History, offer, hand_over,
  step, run, start,
}

flushed_events-append :
    (xs ys : List WriteBatch) → flushed_events (xs ++ ys) ≡ flushed_events xs ++ flushed_events ys
unfolding flushed_events
flushed_events-append [] ys = refl
flushed_events-append (x ∷ xs) ys =
    rw (flushed_events-append xs ys)
      (sym (append_assoc x.events (flushed_events xs) (flushed_events ys)))

module _ (aq : ArrayQueue ChangeEvent) (size_of_event : ℕ) where
  -- The accepted events are those of the flushed batches, then of the current batch, then of the
  -- ring, in this order; no flushed batch is empty, and each has exact bounds.
  pub record Conserved (h : History aq size_of_event) : Type 0 where
    pub consistent : IsConsistent aq size_of_event h.coordinator
    pub order :
        flushed_events h.flushed
          ++ (h.coordinator.current_batch.events ++ items aq h.coordinator.ring)
        ≡ h.accepted
    pub batches : All (λ b. IsExact size_of_event b × (b.events ≢ [])) h.flushed
    pub count : h.coordinator.batches_flushed ≡ length h.flushed % 2 ^ 64

  offer-Conserved :
      (e : ChangeEvent) (h : History aq size_of_event)
      → Conserved h
      → Conserved (offer aq size_of_event e h)
  unfolding offer spec_push note_accepted
  offer-Conserved e h v =
      let r = h.coordinator.ring in
      let (back, kept, ring, cap) = try_push_lem aq e r v.consistent.ring in
      elim (Bool-cases (ltb (length (items aq r)) r.capacity)) [
        | inl room ↦
            let told : (Queue.try_push aq e r).0 ≡ none = back ∙ rw room refl in
            let held : items aq (Queue.try_push aq e r).1 ≡ items aq r ++ (e ∷ []) =
              kept ∙ rw room refl in
            record {
              consistent = record {
                ring = ring;
                batch = v.consistent.batch;
                bytes = v.consistent.bytes;
              };
              order = rw (held, told, note_accepted, ← v.order, append_assoc, append_assoc);
              batches = v.batches;
              count = v.count;
            }
        | inr full ↦
            let told : (Queue.try_push aq e r).0 ≡ some e = back ∙ rw full refl in
            let held : items aq (Queue.try_push aq e r).1 ≡ items aq r = kept ∙ rw full refl in
            record {
              consistent = record {
                ring = ring;
                batch = v.consistent.batch;
                bytes = v.consistent.bytes;
              };
              order = rw (held, told, note_accepted, v.order);
              batches = v.batches;
              count = v.count;
            }
      ]

  take_batch-Conserved :
      (now : Instant) (h : History aq size_of_event)
      → Batch.is_empty h.coordinator.current_batch ≡ false
      → Conserved h
      → Conserved (hand_over aq size_of_event (take_batch aq size_of_event now h.coordinator) h)
  unfolding hand_over take_batch flushed_events Flush.mark_flushed
  take_batch-Conserved now h some_events v =
      let b = h.coordinator.current_batch in
      record {
        consistent = record {
          ring = v.consistent.ring;
          batch = new-IsExact size_of_event;
          bytes = refl;
        };
        order = rw (flushed_events-append h.flushed (b ∷ []), append_assoc, append-nil) v.order;
        batches =
            All-append _ h.flushed (b ∷ []) v.batches
              ((v.consistent.batch, ne-nil_of_not_empty b some_events), tt);
        count = omega (arith, v.count, length-append {0} h.flushed (b ∷ []));
      }

  nothing-Conserved :
      (h : History aq size_of_event)
      → Conserved h
      → Conserved (hand_over aq size_of_event (none, h.coordinator) h)
  unfolding hand_over
  nothing-Conserved h v = rw append-nil v

  maybe_flush-Conserved :
      (now : Instant) (h : History aq size_of_event)
      → Conserved h
      → Conserved (hand_over aq size_of_event (maybe_flush aq size_of_event now h.coordinator) h)
  unfolding maybe_flush
  maybe_flush-Conserved now h v =
      let due = Flush.should_flush now h.coordinator.flush_policy in
      let empty = Batch.is_empty h.coordinator.current_batch in
      elim (Bool-cases due) [
        | inr no_flush ↦ rw no_flush (nothing-Conserved h v)
        | inl is_due ↦ elim (Bool-cases empty) [
          | inl nothing ↦ rw (is_due, nothing) (nothing-Conserved h v)
          | inr events ↦ rw (is_due, events) (take_batch-Conserved now h events v)
        ]
      ]

  pub force_flush-Conserved :
      (now : Instant) (h : History aq size_of_event)
      → Conserved h
      → Conserved (hand_over aq size_of_event (force_flush aq size_of_event now h.coordinator) h)
  unfolding force_flush
  force_flush-Conserved now h v = elim (Bool-cases (Batch.is_empty h.coordinator.current_batch)) [
    | inl nothing ↦ rw nothing (nothing-Conserved h v)
    | inr events ↦ rw events (take_batch-Conserved now h events v)
  ]

  -- A drain also leaves the ring empty.
  pub drain-Conserved :
      (h : History aq size_of_event)
      → Conserved h
      → (h' : History aq size_of_event) × (step aq size_of_event drain h ≡ some h')
        × Conserved h'
        × (items aq h'.coordinator.ring ≡ [])
        × (h'.accepted ≡ h.accepted)
  unfolding step
  drain-Conserved h v =
      let (c', ran, consistent, empty, events, processed, batches) =
        drain_ring_lem aq size_of_event h.coordinator v.consistent in
      (
        record h { coordinator = c' },
        rw (ran, map_option),
        record {
          consistent = consistent;
          order = rw (events, empty, append-nil) v.order;
          batches = v.batches;
          count = batches ∙ v.count;
        },
        empty,
        refl,
      )

  step-Conserved :
      (op : Op) (h : History aq size_of_event)
      → Conserved h
      → (h' : History aq size_of_event) × (step aq size_of_event op h ≡ some h') × Conserved h'
  unfolding step
  step-Conserved (produce e) h v = (offer aq size_of_event e h, refl, offer-Conserved e h v)
  step-Conserved drain h v = let (h', ran, v', _, _) = drain-Conserved h v in (h', ran, v')
  step-Conserved (flush_if_due now) h v = (
    hand_over aq size_of_event (maybe_flush aq size_of_event now h.coordinator) h,
    refl,
    maybe_flush-Conserved now h v,
  )
  step-Conserved (flush now) h v = (
    hand_over aq size_of_event (force_flush aq size_of_event now h.coordinator) h,
    refl,
    force_flush-Conserved now h v,
  )

  run-Conserved :
      (ops : List Op) (h : History aq size_of_event)
      → Conserved h
      → (h' : History aq size_of_event) × (run aq size_of_event ops h ≡ some h') × Conserved h'
  unfolding run
  run-Conserved [] h v = (h, refl, v)
  run-Conserved (op ∷ ops) h v =
      let (h1, one, v1) = step-Conserved op h v in
      let (h2, rest, v2) = run-Conserved ops h1 v1 in (h2, rw (one, ◌>>=◌) rest, v2)

  -- Started with an empty ring of the buffer's capacity and a policy that has counted no bytes, every
  -- sequence of offered events, drains and flushes runs to an end. Then the events that producers
  -- were told are accepted are, in order and without a gap, those of the flushed batches, of the
  -- current batch and of the ring; no flushed batch is empty; the bounds and byte counts of all
  -- batches are exact; the flush policy counts the current batch's bytes; and `batches_flushed` is
  -- the number of flushed batches modulo 2 ^ 64.
  pub run_conserves :
      (ops : List Op) (ring : RingBuffer aq) (policy : FlushPolicy)
      → IsRing aq ring
      → items aq ring ≡ []
      → policy.current_bytes ≡ 0
      → (h : History aq size_of_event) × (run aq size_of_event ops
            (start aq size_of_event ring policy)
          ≡ some h)
        × Conserved h
  unfolding start new flushed_events
  run_conserves ops ring policy v empty fresh =
      run-Conserved ops (start aq size_of_event ring policy) (record {
        consistent = record { ring = v; batch = new-IsExact size_of_event; bytes = fresh };
        order = empty;
        batches = tt;
        count = refl;
      })
