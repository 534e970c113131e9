-- ===== src/Shared/Proto/RoundTrip.antt =====
-- Decoding what was encoded.
use nendi.Common.{
  length-be, length-append, append-nil, u16_mod, le→not_ltb, ◌≤◌, ℕ, ◌%◌, ◌^◌, ◌<◌, ◌≡◌, refl, sym,
  ◌∙◌, arith, true, Option, none, some, List, [], ◌∷◌, ◌++◌, append_assoc, Bytes, Text, length, All,
  is_utf8,
}
use nendi.Common.Cursor.{ok, Reader, ◌>>=◌, pure, index, word, text, word-be, text-append}
use nendi.Shared.Event.{OpType, ColumnValue, RowData, ChangeEvent}
use nendi.Shared.Proto.{
  byte_to_op, encode_row_data, op_to_byte, decode_event, decode_fields, decode_op, decode_row_data,
  decode_some_value, encode_event, encode_text, encode_value, encode_columns, DecodeError,
  decode_value, decode_columns,
}

-- A string whose length fits the `n` bytes of its length field.
abbrev pub IsWireText : ℕ → Text → Type 0
IsWireText n s = (is_utf8 s ≡ true) × (length s < 256 ^ n)

abbrev pub IsWireValue : Option Text → Type 0
IsWireValue none = Unit
IsWireValue (some v) = IsWireText 4 v

pub record IsWireColumn (c : ColumnValue) : Type 0 where
  pub name : IsWireText 2 c.name
  pub type_oid : c.type_oid < 2 ^ 32
  pub value : IsWireValue c.value

abbrev pub IsWireRow : Option RowData → Type 0
IsWireRow none = Unit
IsWireRow (some row) = (length row.columns < 2 ^ 16) × All IsWireColumn row.columns

-- Every field is in the range of its Rust type, and no name, row or value is too long for its
-- length field.
pub record IsWireEvent (e : ChangeEvent) : Type 0 where
  pub lsn : e.lsn < 2 ^ 64
  pub xid : e.xid < 2 ^ 32
  pub schema : IsWireText 2 e.table.schema
  pub table : IsWireText 2 e.table.table
  pub schema_fingerprint : e.schema_fingerprint < 2 ^ 64
  pub commit_timestamp_us : e.commit_timestamp_us < 2 ^ 64
  pub after : IsWireRow e.after
  pub before : IsWireRow e.before

length-mod : (n : ℕ) (s : Text) → length s < 256 ^ n → length s % 256 ^ n ≡ length s
length-mod n s h = grind arith

decode_text-encode_text :
    {A : Type 0} (x : DecodeError) (n : ℕ) (s rest : Bytes) (k : Text → Reader DecodeError A)
    → IsWireText n s
    → (word n >>= λ len. text x len >>= k) (encode_text n s ++ rest) ≡ k s rest
unfolding encode_text
decode_text-encode_text x n s rest k (u, h) =
    rw (append_assoc, word-be n (length s % 256 ^ n) (s ++ rest) (rw (length-mod n s h) h), ◌>>=◌)
      (rw (text-append x (length s % 256 ^ n) s rest u (sym (length-mod n s h)), ◌>>=◌))

decode_value-encode_value :
    (v : Option Text) (rest : Bytes)
    → IsWireValue v
    → decode_value (encode_value v ++ rest) ≡ ok (v, rest)
unfolding decode_value encode_value index decode_some_value
decode_value-encode_value none rest h = refl
decode_value-encode_value (some v) rest h =
    decode_text-encode_text DecodeError.value_utf8 4 v rest (λ t. pure (some t)) h

decode_columns-encode_columns :
    (cs : List ColumnValue) (rest : Bytes)
    → All IsWireColumn cs
    → decode_columns (length cs) (encode_columns cs ++ rest) ≡ ok (cs, rest)
unfolding decode_columns encode_columns
decode_columns-encode_columns [] rest h = refl
decode_columns-encode_columns (c ∷ cs) rest (w, h) =
    rw (append_assoc, append_assoc, append_assoc)
      (decode_text-encode_text DecodeError.column_name_utf8 2 c.name _ _ w.name
        ∙ rw (word-be 4 c.type_oid _ w.type_oid, ◌>>=◌)
            (rw (decode_value-encode_value c.value _ w.value, ◌>>=◌)
              (rw (decode_columns-encode_columns cs rest h, ◌>>=◌))))

decode_row_data-encode_row_data :
    (row : Option RowData) (rest : Bytes)
    → IsWireRow row
    → decode_row_data (encode_row_data row ++ rest) ≡ ok (row, rest)
unfolding decode_row_data encode_row_data
decode_row_data-encode_row_data none rest h = refl
decode_row_data-encode_row_data (some row) rest (few, h) =
    let fits : length row.columns % u16_mod ≡ length row.columns = omega arith in
    rw (append_assoc, word-be 2 (length row.columns % u16_mod) _ (omega arith), ◌>>=◌)
      (rw (fits, decode_columns-encode_columns row.columns rest h, ◌>>=◌))

last_row :
    (row : Option RowData) → IsWireRow row → decode_row_data (encode_row_data row) ≡ ok (row, [])
last_row row h = rw append-nil at (decode_row_data-encode_row_data row [] h)

pub decode_op-op_to_byte :
    (op : OpType) (rest : Bytes) → decode_op (op_to_byte op ∷ rest) ≡ ok (op, rest)
unfolding decode_op op_to_byte byte_to_op index
decode_op-op_to_byte OpType.insert rest = refl
decode_op-op_to_byte OpType.update rest = refl
decode_op-op_to_byte OpType.delete rest = refl
decode_op-op_to_byte OpType.truncate rest = refl

decode_fields-encode_event :
    (e : ChangeEvent) → IsWireEvent e → decode_fields (encode_event e) ≡ ok (e, [])
unfolding decode_fields encode_event
decode_fields-encode_event e w =
    rw (word-be 8 e.lsn _ w.lsn, ◌>>=◌)
      (rw (word-be 4 e.xid _ w.xid, ◌>>=◌)
        (rw (decode_op-op_to_byte e.op _, ◌>>=◌)
          (decode_text-encode_text DecodeError.schema_utf8 2 e.table.schema _ _ w.schema
            ∙ decode_text-encode_text DecodeError.table_utf8 2 e.table.table _ _ w.table
            ∙ rw (word-be 8 e.schema_fingerprint _ w.schema_fingerprint, ◌>>=◌)
                (rw (word-be 8 e.commit_timestamp_us _ w.commit_timestamp_us, ◌>>=◌)
                  (rw (decode_row_data-encode_row_data e.after _ w.after, ◌>>=◌)
                    (rw (last_row e.before w.before, ◌>>=◌)))))))

long_enough : (e : ChangeEvent) → 15 ≤ length (encode_event e)
unfolding encode_event encode_text
long_enough e = omega (arith, length-append {0}, length-be)

-- Every event whose fields are in range and whose texts fit their length fields is decoded from its
-- own encoding unchanged.
pub decode_event-encode_event :
    (e : ChangeEvent) → IsWireEvent e → decode_event (encode_event e) ≡ ok e
unfolding decode_event
decode_event-encode_event e w =
    rw (le→not_ltb _ _ (long_enough e)) (rw (decode_fields-encode_event e w, decode_event))
