-- ===== src/Shared/Event/Samples.antt =====
-- Events for the tests.
use nendi.Common.{ℕ, none, some, [], ◌∷◌, codes}
use nendi.Shared.Event.{OpType, ChangeEvent, RowData, ColumnValue}

abbrev pub id_column : ColumnValue
id_column = record { name = codes "id"; type_oid = 23; value = some (codes "1") }

abbrev pub status_column : ColumnValue
status_column = record { name = codes "status"; type_oid = 25; value = none }

abbrev pub order_row : RowData
order_row = record { columns = id_column ∷ status_column ∷ [] }

abbrev pub order_at : ℕ → ℕ → ChangeEvent
order_at lsn xid = record {
  lsn = lsn;
  xid = xid;
  op = OpType.insert;
  table = record { schema = codes "public"; table = codes "orders" };
  schema_fingerprint = 0xdeadbeef;
  after = some order_row;
  before = none;
  commit_timestamp_us = 1700000000_000_000;
}
