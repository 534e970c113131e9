-- ===== src/Pgsql/Schema/Tests.antt =====
-- A publication of one table, and a name without a dot.
use nendi.Common.{◌≡◌, ◌≢◌, refl, arith, Option, none, some, List, [], ◌∷◌, codes}
use nendi.Common.Cursor.{ok}
use nendi.Pgsql.Client.{publication_tables, asked, get_all}
use nendi.Pgsql.Client.Script.{string, int, Cells, script_server, answer, cell_text}
use nendi.Pgsql.Schema.{ColumnSchema, compute, fnv_text, fnv_byte, load_publication_schemas}
use nendi.Pgsql.Schema.Canonical.{canonical, column, name_and_type, compute_texts, compute_collides}
use nendi.Pgsql.Schema.Loaded.{LoadsAll, load_publication_schemas_lem}

abbrev script : List (Option (List Cells))
script =
    some ((string (codes "public.t") ∷ []) ∷ ((string (codes "odd") ∷ []) ∷ []))
    ∷ (some (
          (string (codes "id") ∷ (string (codes "int4") ∷ (string (codes "NO") ∷ (int 1 ∷ []))))
          ∷ [])
        ∷ (none ∷ []))

listed :
    (publication_tables script_server (codes "p") script).0
    ≡ ok (codes "public.t" ∷ (codes "odd" ∷ []))
unfolding publication_tables asked answer get_all cell_text
listed = refl

load_publication_schemas_lem_example :
    LoadsAll script_server
      (codes "public.t" ∷ (codes "odd" ∷ []))
      []
      (load_publication_schemas script_server (codes "p") (script, []))
load_publication_schemas_lem_example =
    load_publication_schemas_lem script_server (codes "p") (codes "public.t" ∷ (codes "odd" ∷ []))
      (script, []) listed

abbrev one_column : List ColumnSchema
one_column = column (codes "c") (codes "int4") ∷ []

abbrev wider_column : List ColumnSchema
wider_column = column (codes "c") (codes "int8") ∷ []

compute_texts_example :
    (compute (codes "a") (codes "b") one_column
      ≡ fnv_text 0xcbf29ce484222325 (canonical (codes "a") (codes "b") one_column))
    × (compute (codes "a") (codes "b") wider_column
        ≡ fnv_text 0xcbf29ce484222325 (canonical (codes "a") (codes "b") wider_column))
    × (canonical (codes "a") (codes "b") one_column
        ≢ canonical (codes "a") (codes "b") wider_column)
compute_texts_example =
    compute_texts (codes "a") (codes "b") (codes "a") (codes "b") one_column wider_column
      (omega arith) (omega arith) (omega arith) (omega arith) (omega arith) (omega arith)
      (unfold name_and_type in λ p. ground (arith, p.2))

-- FNV-1a of `a`.
fnv_of_a : fnv_text 0xcbf29ce484222325 (codes "a") ≡ 0xaf63dc4c8601ec8c
unfolding fnv_text fnv_byte
fnv_of_a = refl

compute_collides_example :
    compute (codes "s") (codes "t") (column (codes "a:int4|b") (codes "text") ∷ [])
    ≡ compute
        (codes "s")
        (codes "t")
        (column (codes "a") (codes "int4") ∷ (column (codes "b") (codes "text") ∷ []))
compute_collides_example =
    compute_collides (codes "s") (codes "t") (codes "a") (codes "int4") (codes "b") (codes "text")
