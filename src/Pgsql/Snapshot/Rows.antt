-- ===== src/Pgsql/Snapshot/Rows.antt =====
-- The events of a snapshot.
use nendi.Common.{split_once, ◌≡◌, refl, none, List, [], ◌∷◌, ◌++◌, Text, All, All-append, map}
use nendi.Common.Effects.{or_fail, or_panic}
use nendi.Common.Effects.Yields.{Yields, Yields-pure, Yields-fail, Yields-bind, Yields-then}
use nendi.Shared.Lsn.{Lsn}
use nendi.Shared.Event.{OpType, ChangeEvent}
use nendi.Pgsql.Client.{PgServer, PgError, invalid_table, no_columns, asked}
use nendi.Pgsql.Snapshot.{
  SnapshotBuilder, columns_sql, column_names, select_sql, row_event, row_columns, select_rows,
  select_if_any, snapshot_table, snapshot_loop, snapshot_all,
}

-- An insertion at one position, of no transaction.
pub record IsRowAt (lsn : Lsn) (e : ChangeEvent) : Type 0 where
  pub at_lsn : e.lsn ≡ lsn
  pub no_xid : e.xid ≡ 0
  pub insertion : e.op ≡ OpType.insert
  pub no_before : e.before ≡ none

module _ (pg : PgServer) (lsn : Lsn) where
  rows-IsRowAt :
      (schema table : Text) (names : List Text) (rows : List pg.Row)
      → All
          (IsRowAt lsn)
          (map (λ row. row_event lsn schema table (row_columns pg row 0 names)) rows)
  unfolding row_event
  rows-IsRowAt schema table names [] = tt
  rows-IsRowAt schema table names (row ∷ rows) = (
    record { at_lsn = refl; no_xid = refl; insertion = refl; no_before = refl },
    rows-IsRowAt schema table names rows,
  )

  select_rows-Yields :
      (schema table : Text) (names : List Text)
      → Yields (All (IsRowAt lsn)) (select_rows pg schema table lsn names)
  unfolding select_rows
  select_rows-Yields schema table names =
      Yields-then (asked pg (pg.query (select_sql names schema table) []))
        (λ rows. Yields-pure (rows-IsRowAt schema table names rows))

  select_if_any-Yields :
      (q schema table : Text) (names : List Text)
      → Yields (All (IsRowAt lsn)) (select_if_any pg q schema table lsn names)
  unfolding select_if_any
  select_if_any-Yields q schema table [] = Yields-fail (no_columns q)
  select_if_any-Yields q schema table (n ∷ names) = select_rows-Yields schema table (n ∷ names)

  snapshot_table-Yields : (q : Text) → Yields (All (IsRowAt lsn)) (snapshot_table pg q lsn)
  unfolding snapshot_table
  snapshot_table-Yields q =
      Yields-then (or_fail {S = pg.Server} (invalid_table q) (split_once b'.' q)) (λ p.
        Yields-then (asked pg (pg.query columns_sql (p.0 ∷ (p.1 ∷ [])))) (λ rows.
          Yields-then (or_panic {S = pg.Server} {E = PgError} (column_names pg rows))
            (λ names. select_if_any-Yields q p.0 p.1 names)))

  snapshot_loop-Yields :
      (tables : List Text) (before : List ChangeEvent)
      → All (IsRowAt lsn) before
      → Yields (All (IsRowAt lsn)) (snapshot_loop pg lsn tables before)
  unfolding snapshot_loop
  snapshot_loop-Yields [] before so_far = Yields-pure so_far
  snapshot_loop-Yields (table ∷ tables) before so_far =
      Yields-bind (All (IsRowAt lsn)) (snapshot_table-Yields table) (λ events rows.
        snapshot_loop-Yields tables (before ++ events)
          (All-append (IsRowAt lsn) before events so_far rows))

  -- Every event of a snapshot is an insertion at the snapshot's position and of no transaction.
  pub snapshot_all-Yields :
      (b : SnapshotBuilder) → Yields (All (IsRowAt lsn)) (snapshot_all pg lsn b)
  unfolding snapshot_all
  snapshot_all-Yields b = snapshot_loop-Yields b.tables [] tt
