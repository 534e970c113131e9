-- ===== src/Core/Pipeline/Coordinator/History.antt =====
-- Whole runs of producers and the coordinator.
use nendi.Common.{ℕ, Option, none, some, List, [], ◌∷◌, ◌++◌}
use nendi.Common.Options.{◌>>=◌, map_option}
use nendi.Shared.Event.{ChangeEvent}
use nendi.Shared.Queue.{ArrayQueue, RingBuffer, IsRing, items}
use nendi.Shared.Queue
use nendi.Core.Pipeline.Batch.{WriteBatch}
use nendi.Core.Pipeline.Flush.{FlushPolicy, Instant}
use nendi.Core.Pipeline.Coordinator.{PipelineCoordinator, new, drain_ring, maybe_flush, force_flush}

-- What may happen next: a producer offers an event, or the coordinator's task makes one of its calls.
pub data Op : Type 0 where
  produce : ChangeEvent → Op
  drain : Op
  flush_if_due : Instant → Op
  flush : Instant → Op

unfoldable pub to_list : Option WriteBatch → List WriteBatch
to_list none = []
to_list (some b) = b ∷ []

unfoldable pub flushed_events : List WriteBatch → List ChangeEvent
flushed_events [] = []
flushed_events (b ∷ bs) = b.events ++ flushed_events bs

-- An offer is accepted if nothing is handed back.
unfoldable pub note_accepted :
    Option ChangeEvent → ChangeEvent → List ChangeEvent → List ChangeEvent
note_accepted none e accepted = accepted ++ (e ∷ [])
note_accepted (some _) e accepted = accepted

module _ (aq : ArrayQueue ChangeEvent) (size_of_event : ℕ) where
  -- The coordinator, the events that producers were told are accepted, and the batches that were
  -- handed to the storage, each in order.
  pub record History : Type 0 where
    pub coordinator : PipelineCoordinator aq size_of_event
    pub accepted : List ChangeEvent
    pub flushed : List WriteBatch

  unfoldable pub offer : ChangeEvent → History → History
  unfolding note_accepted
  offer e h =
      let (back, ring) = Queue.try_push aq e h.coordinator.ring in
      record h {
        coordinator = record (h.coordinator) { ring = ring };
        accepted = note_accepted back e h.accepted;
      }

  unfoldable pub hand_over :
      Option WriteBatch × PipelineCoordinator aq size_of_event → History → History
  unfolding to_list
  hand_over (b, c) h = record h { coordinator = c; flushed = h.flushed ++ to_list b }

  unfoldable pub step : Op → History → Option History
  step (produce e) h = some (offer e h)
  step drain h =
      map_option (λ p. record h { coordinator = p.0 }) (drain_ring aq size_of_event h.coordinator)
  step (flush_if_due now) h = some (hand_over (maybe_flush aq size_of_event now h.coordinator) h)
  step (flush now) h = some (hand_over (force_flush aq size_of_event now h.coordinator) h)

  unfoldable pub run : List Op → History → Option History
  run [] h = some h
  run (op ∷ ops) h = step op h >>= run ops

  unfoldable pub start : RingBuffer aq → FlushPolicy → History
  start ring policy = record {
    coordinator = new aq size_of_event ring policy;
    accepted = [];
    flushed = [];
  }
