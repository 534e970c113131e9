-- ===== src/Shared/Proto/Samples.antt =====
-- The sample events fit the encoding.
use nendi.Common.{ℕ, ◌<◌, ◌^◌, refl, arith, is_utf8}
use nendi.Shared.Event.Samples.{order_at}
use nendi.Shared.Proto.RoundTrip.{IsWireEvent}

pub order-IsWireEvent : (lsn : ℕ) → lsn < 2 ^ 64 → IsWireEvent (order_at lsn 1)
unfolding is_utf8
order-IsWireEvent lsn h = record {
  lsn = h;
  xid = omega arith;
  schema = (refl, omega arith);
  table = (refl, omega arith);
  schema_fingerprint = omega arith;
  commit_timestamp_us = omega arith;
  after = (
    omega arith,
    (
      record { name = (refl, omega arith); type_oid = omega arith; value = (refl, omega arith) },
      (record { name = (refl, omega arith); type_oid = omega arith; value = tt }, tt),
    ),
  );
  before = tt;
}
