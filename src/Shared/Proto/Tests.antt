-- ===== src/Shared/Proto/Tests.antt =====
-- The codec's theorems at concrete events.
use nendi.Common.{◌≡◌, refl, arith, be, ◌++◌, ◌∷◌, is_utf8, codes}
use nendi.Common.Cursor.{ok, panic}
use nendi.Shared.Event.{OpType}
use nendi.Shared.Event.Samples.{order_at}
use nendi.Shared.Proto.{encode_event, decode_event, op_to_byte}
use nendi.Shared.Proto.RoundTrip.{IsWireEvent, decode_event-encode_event}
use nendi.Shared.Proto.Panics.{decode_event_schema_cut}

order-IsWireEvent : IsWireEvent (order_at 123456 42)
unfolding is_utf8
order-IsWireEvent = record {
  lsn = omega arith;
  xid = omega arith;
  schema = (refl, omega arith);
  table = (refl, omega arith);
  schema_fingerprint = omega arith;
  commit_timestamp_us = omega arith;
  after = (
    omega arith,
    (
      record { name = (refl, omega arith); type_oid = omega arith; value = (refl, omega arith) },
      (record { name = (refl, omega arith); type_oid = omega arith; value = tt }, tt),
    ),
  );
  before = tt;
}

decode_event-encode_event_example :
    decode_event (encode_event (order_at 123456 42)) ≡ ok (order_at 123456 42)
decode_event-encode_event_example = decode_event-encode_event (order_at 123456 42) order-IsWireEvent

decode_event_schema_cut_example :
    decode_event (be 8 7 ++ (be 4 0 ++ (op_to_byte OpType.delete ∷ (be 2 6 ++ codes "pub"))))
    ≡ panic
decode_event_schema_cut_example =
    decode_event_schema_cut 7 0 6 OpType.delete (codes "pub") (omega arith) (omega arith)
      (omega arith) (omega arith)
