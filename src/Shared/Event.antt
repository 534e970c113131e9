-- ===== src/Shared/Event.antt =====
-- shared/src/event/types.rs and envelope.rs: change events, tables, rows.
pub mod Names
pub mod Samples
mod Tests
use nendi.Common.{
  ℕ, ◌+◌, Bool, true, false, Option, none, some, List, [], ◌∷◌, ◌++◌, Text, length, text_eq, codes,
  split_once, if◌then◌else◌, ◌||◌,
}
use nendi.Common.Options.{◌>>=◌, map_option}
use nendi.Shared.Lsn.{Lsn}

pub data OpType : Type 0 where
  insert update delete truncate : OpType

unfoldable pub as_str : OpType → Text
as_str insert = codes "insert"
as_str update = codes "update"
as_str delete = codes "delete"
as_str truncate = codes "truncate"

-- The three spellings of one tag.
is_tag : Text → Text → Text → Text → Bool
is_tag s a b c = text_eq s a || text_eq s b || text_eq s c

unfoldable pub from_str_tag : Text → Option OpType
unfolding is_tag
from_str_tag s =
    if is_tag s (codes "insert") (codes "INSERT") (codes "I")
    then some insert
    else if is_tag s (codes "update") (codes "UPDATE") (codes "U")
    then some update
    else if is_tag s (codes "delete") (codes "DELETE") (codes "D")
    then some delete
    else if is_tag s (codes "truncate") (codes "TRUNCATE") (codes "T")
    then some truncate
    else none

pub record TableId : Type 0 where
  pub schema : Text
  pub table : Text

unfoldable pub qualified : TableId → Text
qualified t = t.schema ++ (b'.' ∷ t.table)

unfoldable pub from_qualified : Text → Option TableId
from_qualified s = do
  (schema, table) ← split_once b'.' s
  some (record { schema = schema; table = table })

pub record ColumnValue : Type 0 where
  pub name : Text
  pub type_oid : ℕ
  pub value : Option Text

pub record RowData : Type 0 where
  pub columns : List ColumnValue

find_column : Text → List ColumnValue → Option ColumnValue
find_column name [] = none
find_column name (c ∷ cs) = if text_eq c.name name then some c else find_column name cs

-- `RowData::get`.
unfoldable pub get : RowData → Text → Option ColumnValue
unfolding find_column
get row name = find_column name row.columns

unfoldable pub get_text : RowData → Text → Option Text
unfolding get
get_text row name = do c ← get row name; c.value

-- `commit_timestamp_us` is an `i64`, kept as its 64-bit pattern: the modelled code only moves it.
pub record ChangeEvent : Type 0 where
  pub lsn : Lsn
  pub xid : ℕ
  pub op : OpType
  pub table : TableId
  pub schema_fingerprint : ℕ
  pub after : Option RowData
  pub before : Option RowData
  pub commit_timestamp_us : ℕ

unfoldable pub is_data_event : ChangeEvent → Bool
is_data_event e = elim e.op [ insert ↦ true | update ↦ true | delete ↦ true | truncate ↦ false ]

unfoldable pub is_truncate : ChangeEvent → Bool
is_truncate e = elim e.op [ truncate ↦ true | _ ↦ false ]

columns_size : List ColumnValue → ℕ
columns_size [] = 0
columns_size (c ∷ cs) =
    length c.name + elim c.value [ none ↦ 0 | some v ↦ length v ] + columns_size cs

row_size : Option RowData → ℕ
unfolding columns_size
row_size none = 0
row_size (some row) = columns_size row.columns

-- `size_of_event` is `size_of::<ChangeEvent>()`, which the compiler chooses. The texts of one event
-- lie in memory, so that their lengths do not add up past `usize`.
unfoldable pub estimated_size : ℕ → ChangeEvent → ℕ
unfolding row_size
estimated_size size_of_event e =
    size_of_event
    + length e.table.schema
    + length e.table.table
    + row_size e.after
    + row_size e.before
