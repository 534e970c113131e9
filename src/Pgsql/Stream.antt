-- ===== src/Pgsql/Stream.antt =====
-- services/pgsql/src/replication/stream.rs: the decoder behind the replication connection.
pub mod Progress
pub mod Transcript
mod Tests
use nendi.Common.{ℕ, Bool, true, false, Option, none, some, [], Bytes}
use nendi.Common.Cursor.{Outcome, ok, err, panic}
use nendi.Shared.Lsn.{Lsn}
use nendi.Shared.Event.{ChangeEvent}
use nendi.Pgsql.Decoding.Tuples.{DecodeError}
use nendi.Pgsql.Decoding.{RelationInfo, Relations, Decoded, decode}

-- The decoder's state is its relations.
pub record ReplicationStream : Type 0 where
  pub decoder : Relations
  pub last_processed_lsn : Lsn
  pub start_lsn : Lsn
  pub active : Bool

unfoldable pub new : Lsn → ReplicationStream
new start_lsn = record {
  decoder = [];
  last_processed_lsn = start_lsn;
  start_lsn = start_lsn;
  active = false;
}

unfoldable pub start : ReplicationStream → ReplicationStream
start s = record s { active = true }

unfoldable pub stop : ReplicationStream → ReplicationStream
stop s = record s { active = false }

module _ (compute_fingerprint : RelationInfo → ℕ) where
  -- An error leaves the stream as it was: no branch of the decoder changes its relations before it
  -- fails.
  unfoldable pub processed :
      Lsn
      → ReplicationStream
      → Decoded compute_fingerprint
      → Outcome DecodeError (Option ChangeEvent) × ReplicationStream
  processed lsn s (ok (event, relations)) =
      (ok event, record s { decoder = relations; last_processed_lsn = lsn })
  processed lsn s (err e) = (err e, s)
  processed lsn s panic = (panic, s)

  unfoldable pub process_message :
      Lsn → Bytes → ReplicationStream → Outcome DecodeError (Option ChangeEvent) × ReplicationStream
  process_message lsn message s = processed lsn s (decode compute_fingerprint s.decoder lsn message)
