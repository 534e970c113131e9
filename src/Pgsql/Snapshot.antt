-- ===== src/Pgsql/Snapshot.antt =====
-- services/pgsql/src/snapshot/builder.rs and exporter.rs: the rows that a table has at the start.
pub mod Rows
pub mod Overwritten
mod Tests
use nendi.Common.{
  ℕ, zero, suc, ◌+◌, Option, none, some, List, [], ◌∷◌, ◌++◌, Text, codes, split_once, map,
}
use nendi.Common.Cursor.{Outcome, ok, err, panic}
use nendi.Common.Effects.{Io, ◌>>=◌, ◌>>◌, pure, fail, or_fail, or_panic}
use nendi.Shared.Lsn.{Lsn}
use nendi.Shared.Event.{OpType, ColumnValue, RowData, ChangeEvent}
use nendi.Pgsql.Client
use nendi.Pgsql.Client.{PgServer, PgError, invalid_table, no_columns, Call, asked, get_all}

pub record SnapshotBuilder : Type 0 where
  pub tables : List Text

unfoldable pub new : List Text → ℕ → SnapshotBuilder
new tables _ = record { tables = tables }

-- `join(", ")`.
unfoldable pub join_comma : List Text → Text
join_comma [] = []
join_comma (x ∷ []) = x
join_comma (x ∷ (y ∷ xs)) = x ++ (codes ", " ++ join_comma (y ∷ xs))

unfoldable pub select_sql : List Text → Text → Text → Text
select_sql names schema table =
    codes "SELECT " ++ (join_comma names ++ (codes " FROM " ++ (schema ++ (b'.' ∷ table))))

unfoldable pub set_snapshot_sql : Text → Text
set_snapshot_sql snap = codes "SET TRANSACTION SNAPSHOT '" ++ (snap ++ codes "'")

unfoldable pub columns_sql : Text
columns_sql =
    codes "SELECT column_name, udt_name\n"
    ++ (codes "                 FROM information_schema.columns\n"
        ++ (codes "                 WHERE table_schema = $1 AND table_name = $2\n"
            ++ codes "                 ORDER BY ordinal_position"))

unfoldable pub snapshot_name_sql : Text
snapshot_name_sql = codes "SELECT snapshot_name FROM pg_replication_slots WHERE slot_name = $1"

unfoldable pub begin_sql : Text
begin_sql = codes "BEGIN TRANSACTION ISOLATION LEVEL REPEATABLE READ"

unfoldable pub commit_sql : Text
commit_sql = codes "COMMIT"

-- A row of a snapshot as an insertion.
unfoldable pub row_event : Lsn → Text → Text → List ColumnValue → ChangeEvent
row_event snapshot_lsn schema table columns = record {
  lsn = snapshot_lsn;
  xid = 0;
  op = OpType.insert;
  table = record { schema = schema; table = table };
  schema_fingerprint = 0;
  after = some (record { columns = columns });
  before = none;
  commit_timestamp_us = 0;
}

module _ (pg : PgServer) where
  -- The columns of a row, from the `i`th name on. A value that is not a text counts as missing.
  unfoldable pub row_columns : pg.Row → ℕ → List Text → List ColumnValue
  row_columns row i [] = []
  row_columns row i (name ∷ names) =
      record { name = name; type_oid = 0; value = pg.try_get row i } ∷ row_columns row (i + 1) names

  -- The names and type names are both read; the latter are not used.
  unfoldable pub column_names : List pg.Row → Option (List Text)
  column_names rows = elim (get_all pg rows 1) [ none ↦ none | some _ ↦ get_all pg rows 0 ]

  unfoldable pub select_rows : Text → Text → Lsn → List Text → Call pg (List ChangeEvent)
  select_rows schema table snapshot_lsn names = do
    rows ← asked pg (pg.query (select_sql names schema table) [])
    pure (map (λ row. row_event snapshot_lsn schema table (row_columns row 0 names)) rows)

  -- What follows the answer with the columns.
  unfoldable pub select_if_any : Text → Text → Text → Lsn → List Text → Call pg (List ChangeEvent)
  select_if_any qualified schema table snapshot_lsn [] = fail (no_columns qualified)
  select_if_any qualified schema table snapshot_lsn (name ∷ names) =
      select_rows schema table snapshot_lsn (name ∷ names)

  unfoldable pub snapshot_table : Text → Lsn → Call pg (List ChangeEvent)
  snapshot_table qualified_table snapshot_lsn = do
    (schema, table) ← or_fail (invalid_table qualified_table) (split_once b'.' qualified_table)
    col_rows ← asked pg (pg.query columns_sql (schema ∷ (table ∷ [])))
    names ← or_panic (column_names col_rows)
    select_if_any qualified_table schema table snapshot_lsn names

  -- The loop of `snapshot_all`, with the events so far.
  unfoldable pub snapshot_loop : Lsn → List Text → List ChangeEvent → Call pg (List ChangeEvent)
  snapshot_loop snapshot_lsn [] all_events = pure all_events
  snapshot_loop snapshot_lsn (table ∷ tables) all_events = do
    events ← snapshot_table table snapshot_lsn
    snapshot_loop snapshot_lsn tables (all_events ++ events)

  unfoldable pub snapshot_all : Lsn → SnapshotBuilder → Call pg (List ChangeEvent)
  snapshot_all snapshot_lsn b = snapshot_loop snapshot_lsn b.tables []

  -- `SnapshotExporter`; its position is only logged. First what follows the snapshot's name.
  unfoldable pub begin_with : Option Text → Call pg (Unit {0})
  begin_with (some snap) = do
    _ ← Client.execute pg begin_sql
    _ ← Client.execute pg (set_snapshot_sql snap)
    pure tt
  begin_with none = do _ ← Client.execute pg begin_sql; pure tt

  unfoldable pub begin_export : Text → Call pg (Unit {0})
  begin_export slot_name = do
    row ← asked pg (pg.query_one snapshot_name_sql (slot_name ∷ []))
    snapshot_name ← or_panic (pg.try_get_opt row 0)
    begin_with snapshot_name

  unfoldable pub commit_export : Call pg (Unit {0})
  commit_export = do _ ← Client.execute pg commit_sql; pure tt
