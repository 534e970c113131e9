-- ===== src/Pgsql/Decoding/Tuples.antt =====
-- The wire-format helpers of pgoutput.rs, and rows of column values.
use nendi.Common.{
  ℕ, zero, suc, ◌+◌, Bool, Option, none, some, List, [], ◌∷◌, ◌++◌, Text, get_elem?, ◌==◌,
  if◌then◌else◌, is_utf8, split_once, hex_encode, decimal, codes,
}
use nendi.Common.Cursor.{ok, err, Reader, ◌>>=◌, ◌>>◌, pure, index, word, text, slice, ensure}
use nendi.Shared.Event.{ColumnValue, RowData}

-- The messages of the `anyhow` errors, without the offsets that they print.
pub data DecodeError : Type 0 where
  begin_too_short commit_too_short unexpected_end unterminated bad_utf8 : DecodeError
  text_beyond binary_beyond : DecodeError
  insert_tag relation_not_found : ℕ → DecodeError

pub record ColumnMeta : Type 0 where
  pub name : Text
  pub type_oid : ℕ
  pub is_key : Bool

unfoldable pub read_u8 : Reader DecodeError ℕ
read_u8 = do ensure 1 unexpected_end; index

unfoldable pub read_u16 : Reader DecodeError ℕ
read_u16 = do ensure 2 unexpected_end; word 2

unfoldable pub read_u32 : Reader DecodeError ℕ
read_u32 = do ensure 4 unexpected_end; word 4

-- The bytes up to a zero byte, which is skipped.
unfoldable pub read_cstring : Reader DecodeError Text
read_cstring s = elim (split_once 0 s) [
  | none ↦ err unterminated
  | some (str, rest) ↦ if is_utf8 str then ok (str, rest) else err bad_utf8
]

unfoldable pub read_text : Reader DecodeError (Option Text)
read_text = do len ← read_u32; ensure len text_beyond; value ← text bad_utf8 len; pure (some value)

unfoldable pub read_binary : Reader DecodeError (Option Text)
read_binary = do
  len ← read_u32
  ensure len binary_beyond
  value ← slice len
  pure (some (codes "\\x" ++ hex_encode value))

-- NULL, an unchanged TOAST value and an unknown tag all give no value.
unfoldable pub read_value : ℕ → Reader DecodeError (Option Text)
read_value col_tag =
    if col_tag == b't' then read_text else if col_tag == b'b' then read_binary else pure none

-- Names and types come from the relation; `col_{i}` and 0 stand where it has no such column.
unfoldable pub column_value : Option ColumnMeta → ℕ → Option Text → ColumnValue
column_value none i value = record {
  name = codes "col_" ++ decimal 4 i;
  type_oid = 0;
  value = value;
}
column_value (some c) i value = record { name = c.name; type_oid = c.type_oid; value = value }

-- `for i in 0..n_cols`, with the number of rounds left and the index. An index has five digits at
-- most, since `n_cols` is a `u16`.
unfoldable pub decode_columns : List ColumnMeta → ℕ → ℕ → Reader DecodeError (List ColumnValue)
decode_columns columns zero i = pure []
decode_columns columns (suc n) i = do
  col_tag ← read_u8
  value ← read_value col_tag
  rest ← decode_columns columns n (i + 1)
  pure (column_value (get_elem? columns i) i value ∷ rest)

unfoldable pub decode_tuple_data : List ColumnMeta → Reader DecodeError RowData
decode_tuple_data columns = do
  n_cols ← read_u16
  result ← decode_columns columns n_cols 0
  pure (record { columns = result })
