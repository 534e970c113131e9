-- ===== src/Pgsql/Client.antt =====
-- services/pgsql/src/connector/client.rs: queries to the source database.
pub mod Script
use nendi.Common.{
  ℕ, ◌^◌, Bool, true, false, ◌&&◌, Option, none, some, List, [], ◌∷◌, ◌++◌, Text, codes, ltb,
  if◌then◌else◌,
}
use nendi.Common.Cursor.{Outcome, ok, err, panic}
use nendi.Common.Effects.{Io, ◌>>=◌, ◌>>◌, pure, fail, or_fail, or_panic, lift}
use nendi.Shared.Lsn.{Lsn, from_pg_str}

-- The errors that calls of the client end in.
pub data PgError : Type 0 where
  database : PgError
  bad_lsn : Text → PgError
  invalid_table : Text → PgError
  no_columns : Text → PgError
  slot_missing : Text → PgError

-- A PostgreSQL server behind tokio-postgres, neither of which is part of this repository. A call
-- answers with rows, or fails with `none`. The `try_get` functions read a column of a row, and give
-- `none` where the column is not there, is not of a type that converts, or, but for the last one, is
-- NULL. An `i64` or `i32` is its bit pattern.
pub record PgServer : Type 1 where
  pub Server : Type 0
  pub Row : Type 0
  pub query : Text → List Text → Server → Option (List Row) × Server
  pub query_one : Text → List Text → Server → Option Row × Server
  pub execute : Text → List Text → Server → Option ℕ × Server
  pub try_get : Row → ℕ → Option Text
  pub try_get_int : Row → ℕ → Option ℕ
  pub try_get_opt : Row → ℕ → Option (Option Text)

unfoldable pub current_wal_lsn_sql : Text
current_wal_lsn_sql = codes "SELECT pg_current_wal_lsn()::text"

unfoldable pub slot_exists_sql : Text
slot_exists_sql = codes "SELECT COUNT(*) FROM pg_replication_slots WHERE slot_name = $1"

unfoldable pub publication_exists_sql : Text
publication_exists_sql = codes "SELECT COUNT(*) FROM pg_publication WHERE pubname = $1"

unfoldable pub wal_lag_sql : Text
wal_lag_sql =
    codes "SELECT COALESCE(pg_wal_lsn_diff(pg_current_wal_lsn(), confirmed_flush_lsn), 0)::bigint\n"
    ++ codes "                 FROM pg_replication_slots WHERE slot_name = $1"

unfoldable pub publication_tables_sql : Text
publication_tables_sql =
    codes "SELECT schemaname || '.' || tablename\n"
    ++ (codes "                 FROM pg_publication_tables WHERE pubname = $1\n"
        ++ codes "                 ORDER BY schemaname, tablename")

-- `x > 0` and `x.max(0) as u64` on an `i64`.
unfoldable pub positive_i64 : ℕ → Bool
positive_i64 x = ltb 0 x && ltb x (2 ^ 63)

unfoldable pub clamp_i64 : ℕ → ℕ
clamp_i64 x = if ltb x (2 ^ 63) then x else 0

abbrev pub or_database : {A : Type 0} → Option A → Outcome PgError A
or_database none = err database
or_database (some a) = ok a

module _ (pg : PgServer) where
  abbrev pub Call : Type 0 → Type 0
  Call A = Io pg.Server PgError A

  -- A call and its `?`.
  unfoldable pub asked : {A : Type 0} → (pg.Server → Option A × pg.Server) → Call A
  asked call s = (or_database (call s).0, (call s).1)

  -- `row.get(i)` as a `String` for each row.
  unfoldable pub get_all : List pg.Row → ℕ → Option (List Text)
  get_all [] i = some []
  get_all (r ∷ rs) i = elim (pg.try_get r i) [
    | none ↦ none
    | some v ↦ elim (get_all rs i) [ none ↦ none | some vs ↦ some (v ∷ vs) ]
  ]

  unfoldable pub execute : Text → Call ℕ
  execute sql = asked (pg.execute sql [])

  unfoldable pub current_wal_lsn : Call Lsn
  current_wal_lsn = do
    row ← asked (pg.query_one current_wal_lsn_sql [])
    lsn_str ← or_panic (pg.try_get row 0)
    or_fail (bad_lsn lsn_str) (from_pg_str lsn_str)

  unfoldable pub slot_exists : Text → Call Bool
  slot_exists slot_name = do
    row ← asked (pg.query_one slot_exists_sql (slot_name ∷ []))
    count ← or_panic (pg.try_get_int row 0)
    pure (positive_i64 count)

  unfoldable pub publication_exists : Text → Call Bool
  publication_exists pub_name = do
    row ← asked (pg.query_one publication_exists_sql (pub_name ∷ []))
    count ← or_panic (pg.try_get_int row 0)
    pure (positive_i64 count)

  unfoldable pub wal_lag_bytes : Text → Call ℕ
  wal_lag_bytes slot_name = do
    row ← asked (pg.query_one wal_lag_sql (slot_name ∷ []))
    lag ← or_panic (pg.try_get_int row 0)
    pure (clamp_i64 lag)

  unfoldable pub publication_tables : Text → Call (List Text)
  publication_tables pub_name = do
    rows ← asked (pg.query publication_tables_sql (pub_name ∷ []))
    or_panic (get_all rows 0)
