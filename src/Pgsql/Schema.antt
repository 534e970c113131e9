-- ===== src/Pgsql/Schema.antt =====
-- services/pgsql/src/schema/registry.rs and fingerprint.rs: the tables' schemas and their fingerprints.
pub mod Canonical
pub mod Loaded
mod Tests
use nendi.Common.{
  ℕ, ◌+◌, ◌*◌, ◌%◌, Bool, true, false, ◌||◌, Option, none, some, List, [], ◌∷◌, ◌++◌, Text, Dict,
  codes, text_eq, text_eq_instance, lookup, insert, split_once, ◌==◌, length, map, if◌then◌else◌,
  u64_mod, add_u64,
}
use nendi.Common.Options.{map_option}
use nendi.Common.Options.{◌>>=◌ as ◌>>=!◌}
use nendi.Common.Cursor.{Outcome, ok, err, panic}
use nendi.Common.Effects.{Io, ◌>>=◌, ◌>>◌, pure, or_panic}
use Prim.Native.Nat.{bit_xor}
use nendi.Pgsql.Client.{PgServer, PgError, Call, asked, get_all, publication_tables}

-- An `i32` is its bit pattern.
pub record ColumnSchema : Type 0 where
  pub name : Text
  pub type_oid : ℕ
  pub type_name : Text
  pub is_nullable : Bool
  pub is_primary_key : Bool
  pub ordinal_position : ℕ

pub record TableSchema : Type 0 where
  pub schema : Text
  pub table : Text
  pub columns : List ColumnSchema
  pub fingerprint : ℕ

-- One round of FNV-1a: `hash ^= b`, then `hash.wrapping_mul(0x100000001b3)`.
unfoldable pub fnv_byte : ℕ → ℕ → ℕ
fnv_byte hash b = bit_xor hash b * 0x100000001b3 % u64_mod

-- A loop over the bytes of a text.
unfoldable pub fnv_text : ℕ → Text → ℕ
fnv_text hash [] = hash
fnv_text hash (b ∷ bs) = fnv_text (fnv_byte hash b) bs

-- The loop over the columns.
unfoldable pub fnv_columns : ℕ → List ColumnSchema → ℕ
fnv_columns hash [] = hash
fnv_columns hash (col ∷ cols) =
    let h = fnv_text (fnv_byte hash b'|') col.name in
    fnv_columns (fnv_text (fnv_byte h b':') col.type_name) cols

unfoldable pub compute : Text → Text → List ColumnSchema → ℕ
compute schema table columns =
    let hash = fnv_text 0xcbf29ce484222325 schema in
    fnv_columns (fnv_text (fnv_byte hash b'.') table) columns

abbrev pub SchemaRegistry : Type 0
SchemaRegistry = Dict Text TableSchema

abbrev pub new : SchemaRegistry
new = []

-- What differs between an unknown, a changed and an unchanged schema is only logged.
unfoldable pub upsert : Text → TableSchema → SchemaRegistry → SchemaRegistry
upsert qualified_name schema r = insert qualified_name schema r

unfoldable pub get : Text → SchemaRegistry → Option TableSchema
get qualified_name r = lookup qualified_name r

unfoldable pub fingerprint_of : Text → SchemaRegistry → Option ℕ
fingerprint_of qualified_name r = map_option (λ s. s.fingerprint) (lookup qualified_name r)

unfoldable pub validate_fingerprint : Text → ℕ → SchemaRegistry → Bool
validate_fingerprint qualified_name fp r = elim (lookup qualified_name r) [
  | none ↦ false
  | some s ↦ s.fingerprint == fp
]

unfoldable pub table_names : SchemaRegistry → List Text
table_names r = map (λ p. p.0) r

unfoldable pub len : SchemaRegistry → ℕ
len r = length r

unfoldable pub is_empty : SchemaRegistry → Bool
is_empty r = length r == 0

-- `contains` on the names of the primary key's columns.
unfoldable pub has_name : List Text → Text → Bool
has_name [] name = false
has_name (n ∷ ns) name = text_eq n name || has_name ns name

unfoldable pub schema_columns_sql : Text
schema_columns_sql =
    codes "SELECT column_name, udt_name, is_nullable, ordinal_position\n"
    ++ (codes "                 FROM information_schema.columns\n"
        ++ (codes "                 WHERE table_schema = $1 AND table_name = $2\n"
            ++ codes "                 ORDER BY ordinal_position"))

unfoldable pub primary_key_sql : Text
primary_key_sql =
    codes "SELECT a.attname\n"
    ++ (codes "                 FROM pg_index i\n"
        ++ (codes
              "                 JOIN pg_attribute a ON a.attrelid = i.indrelid AND a.attnum = ANY(i.indkey)\n"
            ++ codes
                "                 WHERE i.indrelid = ($1 || '.' || $2)::regclass AND i.indisprimary"))

module _ (pg : PgServer) where
  -- One row of the answer; `none` is a panic of `row.get`.
  unfoldable pub column_of : List Text → pg.Row → Option ColumnSchema
  column_of pk_names r = pg.try_get r 0 >>=! λ name. pg.try_get r 1 >>=! λ type_name.
      pg.try_get r 2 >>=! λ nullable. pg.try_get_int r 3 >>=! λ ordinal. some (record {
        name = name;
        type_oid = 0;
        type_name = type_name;
        is_nullable = text_eq nullable (codes "YES");
        is_primary_key = has_name pk_names name;
        ordinal_position = ordinal;
      })

  unfoldable pub columns_of : List Text → List pg.Row → Option (List ColumnSchema)
  columns_of pk_names [] = some []
  columns_of pk_names (r ∷ rs) =
      column_of pk_names r >>=! λ c. map_option (λ cs. c ∷ cs) (columns_of pk_names rs)

  -- Calls to the server, while the registry is shared and keeps what was put into it.
  abbrev pub Load : Type 0 → Type 0
  Load A = Io (pg.Server × SchemaRegistry) PgError A

  abbrev pub on_server : {A : Type 0} → Call pg A → Load A
  on_server m p = ((m p.0).0, ((m p.0).1, p.1))

  -- `unwrap_or_default` on the answer to the query for the primary key.
  unfoldable pub rows_or_none :
      (pg.Server → Option (List pg.Row) × pg.Server) → Call pg (List pg.Row)
  rows_or_none call s = (ok (elim ((call s).0) [ none ↦ [] | some rows ↦ rows ]), (call s).1)

  abbrev pub put : Text → TableSchema → Load (Unit {0})
  put qualified schema p = (ok tt, (p.0, upsert qualified schema p.1))

  -- The body of the loop, for a name with a dot.
  unfoldable pub load_table : Text → Text → Text → Load (Unit {0})
  load_table qualified schema table = do
    rows ← on_server (asked pg (pg.query schema_columns_sql (schema ∷ (table ∷ []))))
    pk_rows ← on_server (rows_or_none (pg.query primary_key_sql (schema ∷ (table ∷ []))))
    pk_names ← or_panic (get_all pg pk_rows 0)
    columns ← or_panic (columns_of pk_names rows)
    put qualified (record {
      schema = schema;
      table = table;
      columns = columns;
      fingerprint = compute schema table columns;
    })

  -- The loop over the publication's tables, with `count`. A name without a dot is skipped.
  unfoldable pub load_loop : List Text → ℕ → Load ℕ
  load_loop [] count = pure count
  load_loop (qualified ∷ tables) count = elim (split_once b'.' qualified) [
    | none ↦ load_loop tables count
    | some (schema, table) ↦
        load_table qualified schema table >>= λ _. load_loop tables (add_u64 count 1)
  ]

  unfoldable pub load_publication_schemas : Text → Load ℕ
  load_publication_schemas publication_name = do
    tables ← on_server (publication_tables pg publication_name)
    load_loop tables 0
