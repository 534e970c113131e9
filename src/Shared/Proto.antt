-- ===== src/Shared/Proto.antt =====
-- shared/src/serialize/proto.rs: the binary form of a change event.
pub mod RoundTrip
pub mod Panics
pub mod Samples
mod Tests
use nendi.Common.{
  ℕ, zero, suc, ◌+◌, ◌%◌, ◌^◌, Option, none, some, List, [], ◌∷◌, ◌++◌, Bytes, Text, be, length,
  ltb, ◌==◌, if◌then◌else◌, u16_mod, u32_mod,
}
use nendi.Common.Cursor.{Outcome, ok, err, panic, Reader, ◌>>=◌, pure, fail, index, word, text}
use nendi.Shared.Event.{OpType, TableId, ColumnValue, RowData, ChangeEvent}

pub op_to_byte : OpType → ℕ
op_to_byte OpType.insert = b'I'
op_to_byte OpType.update = b'U'
op_to_byte OpType.delete = b'D'
op_to_byte OpType.truncate = b'T'

pub byte_to_op : ℕ → Option OpType
byte_to_op b =
    if b == b'I'
    then some OpType.insert
    else if b == b'U'
    then some OpType.update
    else if b == b'D'
    then some OpType.delete
    else if b == b'T'
    then some OpType.truncate
    else none

-- A text behind its length in `n` bytes; `as u16` and `as u32` cut the length.
pub encode_text : ℕ → Text → Bytes
encode_text n s = be n (length s % 256 ^ n) ++ s

pub encode_value : Option Text → Bytes
encode_value none = 0 ∷ []
encode_value (some v) = 1 ∷ encode_text 4 v

pub encode_columns : List ColumnValue → Bytes
encode_columns [] = []
encode_columns (c ∷ cs) =
    encode_text 2 c.name ++ (be 4 c.type_oid ++ (encode_value c.value ++ encode_columns cs))

pub encode_row_data : Option RowData → Bytes
encode_row_data none = 0 ∷ []
encode_row_data (some row) = 1 ∷ (be 2 (length row.columns % u16_mod) ++ encode_columns row.columns)

unfoldable pub encode_event : ChangeEvent → Bytes
encode_event e =
    be 8 e.lsn
    ++ (be 4 e.xid
        ++ (op_to_byte e.op
            ∷ (encode_text 2 e.table.schema
                ++ (encode_text 2 e.table.table
                    ++ (be 8 e.schema_fingerprint
                        ++ (be 8 e.commit_timestamp_us
                            ++ (encode_row_data e.after ++ encode_row_data e.before)))))))

-- The `Err` texts of `decode_event`.
pub data DecodeError : Type 0 where
  too_short unknown_op schema_utf8 table_utf8 column_name_utf8 value_utf8 : DecodeError

decode_some_value : Reader DecodeError (Option Text)
decode_some_value = do val_len ← word 4; v ← text value_utf8 val_len; pure (some v)

pub decode_value : Reader DecodeError (Option Text)
decode_value = do val_flag ← index; if val_flag == 0 then pure none else decode_some_value

pub decode_columns : ℕ → Reader DecodeError (List ColumnValue)
decode_columns zero = pure []
decode_columns (suc n) = do
  name_len ← word 2
  name ← text column_name_utf8 name_len
  type_oid ← word 4
  value ← decode_value
  columns ← decode_columns n
  pure (record { name = name; type_oid = type_oid; value = value } ∷ columns)

pub decode_row_data : Reader DecodeError (Option RowData)
decode_row_data [] = ok (none, [])
decode_row_data (flag ∷ s) =
    if flag == 0
    then ok (none, s)
    else (do
      col_count ← word 2
      columns ← decode_columns col_count
      pure (some (record { columns = columns })))
        s

pub decode_op : Reader DecodeError OpType
decode_op = do b ← index; elim (byte_to_op b) [ none ↦ fail unknown_op | some op ↦ pure op ]

pub decode_fields : Reader DecodeError ChangeEvent
decode_fields = do
  lsn ← word 8
  xid ← word 4
  op ← decode_op
  schema_len ← word 2
  schema ← text schema_utf8 schema_len
  table_len ← word 2
  table ← text table_utf8 table_len
  schema_fingerprint ← word 8
  commit_timestamp_us ← word 8
  after ← decode_row_data
  before ← decode_row_data
  pure (record {
    lsn = lsn;
    xid = xid;
    op = op;
    table = record { schema = schema; table = table };
    schema_fingerprint = schema_fingerprint;
    after = after;
    before = before;
    commit_timestamp_us = commit_timestamp_us;
  })

-- What follows the second row is not looked at.
unfoldable pub decode_event : Bytes → Outcome DecodeError ChangeEvent
decode_event s =
    if ltb (length s) (8 + 4 + 1 + 2)
    then err too_short
    else elim (decode_fields s) [ ok (e, _) ↦ ok e | err x ↦ err x | panic ↦ panic ]
