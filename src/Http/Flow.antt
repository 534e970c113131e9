-- ===== src/Http/Flow.antt =====
-- http/src/egress/grpc/backpressure.rs, grpc/replay.rs and webhook/batcher.rs: how many events go
-- out to a consumer, and from where.
pub mod Pending
pub mod Range
use nendi.Common.{
  ℕ, ◌+◌, ◌-◌, Bool, Option, none, some, List, [], ◌∷◌, ◌++◌, length, leb, ◌==◌, if◌then◌else◌,
  add_u64, fits_capacity,
}
use nendi.Common.Cursor.{Outcome, ok, panic}
use nendi.Shared.Event.{ChangeEvent}
use nendi.Shared.Lsn.{Lsn, saturating_add}

pub record GrpcBackpressure : Type 0 where
  pub max_pending : ℕ
  pub pending : ℕ

unfoldable pub new : ℕ → GrpcBackpressure
new max_pending = record { max_pending = max_pending; pending = 0 }

unfoldable pub on_send : GrpcBackpressure → GrpcBackpressure
on_send b = record b { pending = add_u64 b.pending 1 }

unfoldable pub on_ack : ℕ → GrpcBackpressure → GrpcBackpressure
on_ack count b = record b { pending = b.pending - count }

unfoldable pub should_pause : GrpcBackpressure → Bool
should_pause b = leb b.max_pending b.pending

pub record ReplayRange : Type 0 where
  pub start_lsn : Lsn
  pub end_lsn : Lsn

unfoldable pub replay_range : Lsn → Lsn → Option ReplayRange
replay_range committed_lsn head_lsn =
    if leb head_lsn committed_lsn
    then none
    else some (record { start_lsn = saturating_add committed_lsn 1; end_lsn = head_lsn })

unfoldable pub estimate_events : ReplayRange → ℕ
estimate_events r = r.end_lsn - r.start_lsn

-- The linger time is the caller's to keep.
pub record WebhookBatcher : Type 0 where
  pub max_batch_size : ℕ
  pub buffer : List ChangeEvent

-- The buffer is made with room for `max_batch_size` events, which panics if their bytes overflow an
-- `isize`; so a batcher that is there has such a size, and `drain` makes a new buffer without a panic.
unfoldable pub new_batcher : ℕ → ℕ → Outcome ⊥ WebhookBatcher
new_batcher size_of_event max_batch_size =
    if fits_capacity size_of_event max_batch_size
    then ok (record { max_batch_size = max_batch_size; buffer = [] })
    else panic

unfoldable pub push : ChangeEvent → WebhookBatcher → WebhookBatcher
push event b = record b { buffer = b.buffer ++ (event ∷ []) }

unfoldable pub is_full : WebhookBatcher → Bool
is_full b = leb b.max_batch_size (length b.buffer)

unfoldable pub drain : WebhookBatcher → List ChangeEvent × WebhookBatcher
drain b = (b.buffer, record b { buffer = [] })
