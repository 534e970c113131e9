-- ===== src/Core/Delivery/Flushed.antt =====
-- From producers to the store: core/src/pipeline/coordinator.rs before core/src/storage/rocks/tenant.rs.
use nendi.Common.{
  ◌^◌, ◌<◌, ◌*◌, ℕ, ◌≤◌, ◌≡◌, ◌↔◌, refl, sym, ap, ◌∙◌, max, Bool-cases, inl, inr, Option,
  Option-cases, none, some, List, [], ◌∷◌, ◌++◌, append-nil, All, All-append, take, map,
}
use nendi.Common.Options.{map_option, ◌>>=◌}
use nendi.Common.Cursor.{ok}
use nendi.Shared.Lsn.{Lsn, IsLsn, to_be_bytes}
use nendi.Shared.Event.{ChangeEvent}
use nendi.Shared.Proto.RoundTrip.{IsWireEvent}
use nendi.Shared.Queue.{ArrayQueue, RingBuffer, IsRing, items}
use nendi.Shared.Queue
use nendi.Core.Pipeline.Batch
use nendi.Core.Pipeline.Batch.{eq-nil_of_empty, WriteBatch}
use nendi.Core.Pipeline.Flush.{FlushPolicy, Instant}
use nendi.Core.Pipeline.Coordinator.{maybe_flush, force_flush, take_batch, drain_ring}
use nendi.Core.Pipeline.Coordinator.History.{
  Op, produce, drain, flush_if_due, flush, flushed_events, note_accepted, History, offer, hand_over,
  step, run, start,
}
use nendi.Core.Pipeline.Coordinator.Conserved.{
  force_flush-Conserved, Conserved, run_conserves, drain-Conserved, force_flush-Conserved,
}
use nendi.Core.Storage.Keys.{make_key}
use nendi.Core.Storage.Store.{Entry, Among, IsSorted, KeyValueStore, entry, read_from}
use nendi.Core.Storage.Store.Entries.{latest}
use nendi.Core.Storage.Store.ReadBack.{all_events, write_all, read_from-write_all}

-- The events of batches that are handed over, as the store gets them.
unfoldable pub batch_events : List WriteBatch → List (List ChangeEvent)
batch_events bs = map (λ b. b.events) bs

all_events-batch_events : (bs : List WriteBatch) → all_events (batch_events bs) ≡ flushed_events bs
unfolding all_events batch_events flushed_events
all_events-batch_events [] = refl
all_events-batch_events (b ∷ bs) = ap (λ l. b.events ++ l) (all_events-batch_events bs)

-- What an operation offers to the ring can be stored.
abbrev pub IsWireOp : Op → Type 0
IsWireOp (produce e) = IsWireEvent e
IsWireOp drain = Unit
IsWireOp (flush_if_due _) = Unit
IsWireOp (flush _) = Unit

wire-note_accepted :
    (back : Option ChangeEvent) (e : ChangeEvent) (accepted : List ChangeEvent)
    → IsWireEvent e
    → All IsWireEvent accepted
    → All IsWireEvent (note_accepted back e accepted)
unfolding note_accepted
wire-note_accepted none e accepted w ws = All-append IsWireEvent accepted (e ∷ []) ws (w, tt)
wire-note_accepted (some _) e accepted w ws = ws

module _ (aq : ArrayQueue ChangeEvent) (size_of_event : ℕ) where
  -- Only an offer adds to the accepted events.
  wire-step :
      (op : Op) (h h' : History aq size_of_event)
      → IsWireOp op
      → All IsWireEvent h.accepted
      → step aq size_of_event op h ≡ some h'
      → All IsWireEvent h'.accepted
  unfolding step offer hand_over
  wire-step (produce e) h h' w ws ran =
      let made : some (offer aq size_of_event e h) ≡ some h' = ran in
      let made' : offer aq size_of_event e h ≡ h' = cc in
      rw (← made') (wire-note_accepted (Queue.try_push aq e h.coordinator.ring).0 e h.accepted w ws)
  wire-step drain h h' w ws ran = elim (Option-cases (drain_ring aq size_of_event h.coordinator)) [
    | inl stuck ↦ let no : none ≡ some h' = rw (stuck, map_option) at ran in cc
    | inr (p, drained) ↦
        let made : some (record h { coordinator = p.0 }) ≡ some h' =
          rw (drained, map_option) at ran in
        let made' : record h { coordinator = p.0 } ≡ h' = cc in rw (← made') ws
  ]
  wire-step (flush_if_due now) h h' w ws ran =
      let c = maybe_flush aq size_of_event now h.coordinator in
      let made : hand_over aq size_of_event c h ≡ h' = cc in rw (← made) ws
  wire-step (flush now) h h' w ws ran =
      let c = force_flush aq size_of_event now h.coordinator in
      let made : hand_over aq size_of_event c h ≡ h' = cc in rw (← made) ws

  wire-run :
      (ops : List Op) (h h' : History aq size_of_event)
      → All IsWireOp ops
      → All IsWireEvent h.accepted
      → run aq size_of_event ops h ≡ some h'
      → All IsWireEvent h'.accepted
  unfolding run
  wire-run [] h h' w ws ran = let same : h ≡ h' = cc in rw (← same) ws
  wire-run (op ∷ ops) h h' (w, wo) ws ran = elim (Option-cases (step aq size_of_event op h)) [
    | inl stuck ↦ let no : none ≡ some h' = rw (stuck, ◌>>=◌) at ran in cc
    | inr (mid, one) ↦
        let rest : run aq size_of_event ops mid ≡ some h' = rw (one, ◌>>=◌) at ran in
        wire-run ops mid h' wo (wire-step op h mid w ws one) rest
  ]

  run-append :
      (xs ys : List Op) (h h1 h2 : History aq size_of_event)
      → run aq size_of_event xs h ≡ some h1
      → run aq size_of_event ys h1 ≡ some h2
      → run aq size_of_event (xs ++ ys) h ≡ some h2
  unfolding run
  run-append [] ys h h1 h2 a b = let same : h ≡ h1 = cc in rw same b
  run-append (op ∷ xs) ys h h1 h2 a b = elim (Option-cases (step aq size_of_event op h)) [
    | inl stuck ↦ let no : none ≡ some h1 = rw (stuck, ◌>>=◌) at a in cc
    | inr (mid, one) ↦
        let rest : run aq size_of_event xs mid ≡ some h1 = rw (one, ◌>>=◌) at a in
        rw (one, ◌>>=◌) (run-append xs ys mid h1 h2 rest b)
  ]

  -- A forced flush leaves the current batch empty and touches nothing else of the events.
  force_flush-events :
      (now : Instant) (h : History aq size_of_event)
      → let h' = hand_over aq size_of_event (force_flush aq size_of_event now h.coordinator) h in
        (h'.coordinator.current_batch.events ≡ [])
        × (items aq h'.coordinator.ring ≡ items aq h.coordinator.ring)
        × (h'.accepted ≡ h.accepted)
  unfolding hand_over force_flush take_batch
  force_flush-events now h = elim (Bool-cases (Batch.is_empty h.coordinator.current_batch)) [
    | inl nothing ↦ rw nothing (eq-nil_of_empty h.coordinator.current_batch nothing, refl, refl)
    | inr events ↦ rw events (refl, refl, refl)
  ]

  drain_and_flush :
      (now : Instant) (h : History aq size_of_event)
      → Conserved aq size_of_event h
      → (h' : History aq size_of_event) × (run aq size_of_event (drain ∷ flush now ∷ []) h
          ≡ some h')
        × Conserved aq size_of_event h'
        × (items aq h'.coordinator.ring ≡ [])
        × (h'.coordinator.current_batch.events ≡ [])
        × (h'.accepted ≡ h.accepted)
  unfolding run
  drain_and_flush now h v =
      let (mid, drained, v', empty, kept) = drain-Conserved aq size_of_event h v in
      let (batch, ring, kept') = force_flush-events now mid in
      (
        hand_over aq size_of_event (force_flush aq size_of_event now mid.coordinator) mid,
        rw (drained, ◌>>=◌) (unfold step in refl),
        force_flush-Conserved aq size_of_event now mid v',
        ring ∙ empty,
        batch,
        kept' ∙ kept,
      )

  -- Started with an empty ring of the buffer's capacity and a policy that has counted no bytes, every
  -- sequence of offered events, drains and flushes that is followed by a drain and a forced flush runs
  -- to an end; then the ring and the current batch are empty, and the events of the flushed batches
  -- are the accepted ones, in order.
  pub run_delivers :
      (ops : List Op) (now : Instant) (ring : RingBuffer aq) (policy : FlushPolicy)
      → IsRing aq ring
      → items aq ring ≡ []
      → policy.current_bytes ≡ 0
      → (h : History aq size_of_event) × (run aq size_of_event
            (ops ++ (drain ∷ flush now ∷ []))
            (start aq size_of_event ring policy)
          ≡ some h)
        × (items aq h.coordinator.ring ≡ [])
        × (h.coordinator.current_batch.events ≡ [])
        × (flushed_events h.flushed ≡ h.accepted)
  run_delivers ops now ring policy v empty fresh =
      let h0 = start aq size_of_event ring policy in
      let (h1, ran, v1) = run_conserves aq size_of_event ops ring policy v empty fresh in
      let (h2, ended, v2, no_items, no_batch, _) = drain_and_flush now h1 v1 in
      (
        h2,
        run-append ops (drain ∷ flush now ∷ []) h0 h1 h2 ran ended,
        no_items,
        no_batch,
        sym (append-nil (flushed_events h2.flushed))
            ∙ ap (λ l. flushed_events h2.flushed ++ l) (sym (rw (no_batch, no_items) refl))
            ∙ v2.order,
      )

  -- The same run, of events that fit the store's encoding, whose flushed batches are then written to
  -- an empty column family, all successfully. A read from a position, a `u64`, that meets no I/O error,
  -- with a limit for which a vector of events does not overflow its capacity, gives the first events, as many as the limit allows and one at least, of the accepted ones that
  -- are at or past the position and that no later accepted event with the same key has overwritten,
  -- in the order of their keys.
  pub delivered_read_back :
      (kv : KeyValueStore) (ops : List Op) (now : Instant) (ring : RingBuffer aq)
      (policy : FlushPolicy) (h : History aq size_of_event) (db db' : kv.Db) (found : List Entry)
      (from : Lsn) (limit : ℕ)
      → limit * size_of_event < 2 ^ 63
      → IsRing aq ring
      → items aq ring ≡ []
      → policy.current_bytes ≡ 0
      → All IsWireOp ops
      → run aq size_of_event (ops ++ (drain ∷ flush now ∷ [])) (start aq size_of_event ring policy)
        ≡ some h
      → kv.contents db ≡ []
      → write_all kv (batch_events h.flushed) db ≡ some db'
      → IsLsn from
      → kv.iterator (to_be_bytes from) db' ≡ map some found
      → (es : List ChangeEvent) × (read_from kv size_of_event from limit db'
          ≡ ok (take (max 1 limit) es))
        × IsSorted (map entry es)
        × ((e : ChangeEvent)
            → Among e es ↔ ((latest (make_key e) h.accepted ≡ some e) × (from ≤ e.lsn)))
  delivered_read_back kv ops now ring policy h db db' found from limit room v empty fresh wire ran
        none_yet written hs iterated =
      let h0 = start aq size_of_event ring policy in
      let (h2, ran2, _, _, all) = run_delivers ops now ring policy v empty fresh in
      let same : some h2 ≡ some h = sym ran2 ∙ ran in
      let same' : h2 ≡ h = cc in
      let accepted : all_events (batch_events h.flushed) ≡ h.accepted =
        all_events-batch_events h.flushed ∙ rw (← same') all in
      let wire2 : All IsWireOp (ops ++ (drain ∷ flush now ∷ [])) =
        All-append IsWireOp ops _ wire (tt, (tt, tt)) in
      let w : All IsWireEvent h.accepted =
        wire-run (ops ++ (drain ∷ flush now ∷ [])) h0 h wire2 (unfold start in tt) ran in
      rw accepted at (
        read_from-write_all kv (batch_events h.flushed) db db' found from size_of_event limit room
          none_yet written (rw accepted w) hs iterated)
