-- ===== src/Pgsql/Decoding/Wire.antt =====
-- PostgreSQL's side of the protocol: the bytes of the messages, as its documentation lays them out.
-- These are no code of this repository; the decoder is proved against them.
use nendi.Common.{
  ℕ, ◌<◌, ◌^◌, ◌≡◌, ◌≢◌, true, if◌then◌else◌, Option, none, some, List, [], ◌∷◌, ◌++◌, Bytes, Text,
  be, length, All, is_utf8, codes, hex_encode,
}
use nendi.Shared.Event.{ColumnValue, RowData}
use nendi.Pgsql.Decoding.Tuples.{ColumnMeta}
use nendi.Pgsql.Decoding.{ReplicaIdentity, RelationInfo}

-- A column of a row as it is sent.
pub data WireValue : Type 0 where
  null unchanged : WireValue
  textual : Text → WireValue
  binary : Bytes → WireValue

unfoldable pub wire_value : WireValue → Bytes
wire_value null = b'n' ∷ []
wire_value unchanged = b'u' ∷ []
wire_value (textual t) = b't' ∷ (be 4 (length t) ++ t)
wire_value (binary bs) = b'b' ∷ (be 4 (length bs) ++ bs)

unfoldable pub wire_values : List WireValue → Bytes
wire_values [] = []
wire_values (v ∷ vs) = wire_value v ++ wire_values vs

unfoldable pub wire_tuple : List WireValue → Bytes
wire_tuple vs = be 2 (length vs) ++ wire_values vs

-- What a consumer is to see of a column: binary values as `\x` and hexadecimal digits.
unfoldable pub meaning : WireValue → Option Text
meaning null = none
meaning unchanged = none
meaning (textual t) = some t
meaning (binary bs) = some (codes "\\x" ++ hex_encode bs)

unfoldable pub row_of : List ColumnMeta → List WireValue → List ColumnValue
row_of (c ∷ cs) (v ∷ vs) =
    record { name = c.name; type_oid = c.type_oid; value = meaning v } ∷ row_of cs vs
row_of _ _ = []

abbrev pub IsWireValue : WireValue → Type 0
IsWireValue null = Unit
IsWireValue unchanged = Unit
IsWireValue (textual t) = (is_utf8 t ≡ true) × (length t < 2 ^ 32)
IsWireValue (binary bs) = length bs < 2 ^ 32

-- One value for each column of the relation.
pub record IsTuple (columns : List ColumnMeta) (vs : List WireValue) : Type 0 where
  pub values : All IsWireValue vs
  pub as_many : length vs ≡ length columns
  pub few : length vs < 2 ^ 16

-- The old row of an update or a delete: the key alone, in a row that is null elsewhere, or with
-- `REPLICA IDENTITY FULL` the whole row.
pub data OldTuple : Type 0 where
  key_tuple full_tuple : List WireValue → OldTuple

unfoldable pub old_values : OldTuple → List WireValue
old_values (key_tuple vs) = vs
old_values (full_tuple vs) = vs

unfoldable pub wire_old : OldTuple → Bytes
wire_old (key_tuple vs) = b'K' ∷ wire_tuple vs
wire_old (full_tuple vs) = b'O' ∷ wire_tuple vs

abbrev pub IsOldTuple : List ColumnMeta → Option OldTuple → Type 0
IsOldTuple columns none = Unit
IsOldTuple columns (some old) = IsTuple columns (old_values old)

unfoldable pub old_row : List ColumnMeta → Option OldTuple → Option RowData
unfolding old_values
old_row columns none = none
old_row columns (some old) = some (record { columns = row_of columns (old_values old) })

unfoldable pub identity_byte : ReplicaIdentity → ℕ
identity_byte ReplicaIdentity.default = b'd'
identity_byte ReplicaIdentity.nothing = b'n'
identity_byte ReplicaIdentity.full = b'f'
identity_byte ReplicaIdentity.index_key = b'i'

-- A text without a zero byte, behind which a zero byte is sent.
abbrev pub IsCString : Text → Type 0
IsCString s = (is_utf8 s ≡ true) × All (λ c. c ≢ 0) s

-- Each column with its type modifier, an `i32` as its bit pattern.
unfoldable pub wire_columns : List ColumnMeta → List ℕ → Bytes
wire_columns (c ∷ cs) (m ∷ ms) =
    (if c.is_key then 1 else 0)
    ∷ (c.name ++ (0 ∷ (be 4 c.type_oid ++ (be 4 m ++ wire_columns cs ms))))
wire_columns _ _ = []

pub record IsColumn (c : ColumnMeta) : Type 0 where
  pub name : IsCString c.name
  pub type_oid : c.type_oid < 2 ^ 32

unfoldable pub wire_relation : ℕ → RelationInfo → List ℕ → Bytes
wire_relation rel_id rel modifiers =
    be 4 rel_id
    ++ (rel.schema
        ++ (0
            ∷ (rel.table
                ++ (0
                    ∷ (identity_byte rel.replica_identity
                        ∷ (be 2 (length rel.columns) ++ wire_columns rel.columns modifiers))))))

pub record IsRelation (rel : RelationInfo) (modifiers : List ℕ) : Type 0 where
  pub schema : IsCString rel.schema
  pub table : IsCString rel.table
  pub columns : All IsColumn rel.columns
  pub few : length rel.columns < 2 ^ 16
  pub as_many : length modifiers ≡ length rel.columns
  pub modifiers_fit : All (λ m. m < 2 ^ 32) modifiers

unfoldable pub relation_message : ℕ → RelationInfo → List ℕ → Bytes
relation_message rel_id rel modifiers = b'R' ∷ wire_relation rel_id rel modifiers

unfoldable pub insert_message : ℕ → List WireValue → Bytes
insert_message rel_id new = b'I' ∷ (be 4 rel_id ++ (b'N' ∷ wire_tuple new))

-- The old row, if it is sent, precedes the new one.
unfoldable pub update_message : ℕ → Option OldTuple → List WireValue → Bytes
update_message rel_id none new = b'U' ∷ (be 4 rel_id ++ (b'N' ∷ wire_tuple new))
update_message rel_id (some old) new =
    b'U' ∷ (be 4 rel_id ++ (wire_old old ++ (b'N' ∷ wire_tuple new)))

unfoldable pub delete_message : ℕ → OldTuple → Bytes
delete_message rel_id old = b'D' ∷ (be 4 rel_id ++ wire_old old)
