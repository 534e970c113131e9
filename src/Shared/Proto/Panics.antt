-- ===== src/Shared/Proto/Panics.antt =====
-- Inputs on which `decode_event` panics.
use nendi.Common.{
  ℕ, ◌<◌, ◌≤◌, ◌^◌, ◌≡◌, arith, Bytes, be, length, length-be, length-append, le→not_ltb, ◌++◌, ◌∷◌,
}
use nendi.Common.Cursor.{panic, ◌>>=◌, word-be, text, slice_short}
use nendi.Shared.Event.{OpType}
use nendi.Shared.Proto.{decode_event, decode_fields, op_to_byte, DecodeError}
use nendi.Shared.Proto.RoundTrip.{decode_op-op_to_byte}

text_short : (x : DecodeError) (n : ℕ) (s : Bytes) → length s < n → text x n s ≡ panic
unfolding text
text_short x n s h = rw (slice_short n s h, ◌>>=◌)

-- A message whose header is complete, but whose schema name is announced longer than what is left of
-- the message, makes `decode_event` panic; it answers no `Err`.
pub decode_event_schema_cut :
    (lsn xid schema_len : ℕ) (op : OpType) (rest : Bytes)
    → lsn < 2 ^ 64
    → xid < 2 ^ 32
    → schema_len < 2 ^ 16
    → length rest < schema_len
    → decode_event (be 8 lsn ++ (be 4 xid ++ (op_to_byte op ∷ (be 2 schema_len ++ rest)))) ≡ panic
unfolding decode_event decode_fields
decode_event_schema_cut lsn xid schema_len op rest hl hx hs cut = rw (le→not_ltb _ 15 header) (
    rw (word-be 8 lsn _ hl, ◌>>=◌)
      (rw (word-be 4 xid _ hx, ◌>>=◌)
        (rw (decode_op-op_to_byte op _, ◌>>=◌)
          (rw (word-be 2 schema_len _ hs, ◌>>=◌)
            (rw (text_short DecodeError.schema_utf8 schema_len rest cut, ◌>>=◌))))))
  where
    header : 15 ≤ length (be 8 lsn ++ (be 4 xid ++ (op_to_byte op ∷ (be 2 schema_len ++ rest))))
    header = omega (arith, length-append {0}, length-be)
