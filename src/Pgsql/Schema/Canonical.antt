-- ===== src/Pgsql/Schema/Canonical.antt =====
-- The text that a fingerprint is the hash of.
use nendi.Common.{
  false, true, ℕ, ◌≡◌, ◌≢◌, refl, sym, ap, ◌∙◌, List, [], ◌∷◌, ◌++◌, append_assoc, Text, All, map,
}
use nendi.Pgsql.Schema.{ColumnSchema, fnv_byte, fnv_text, fnv_columns, compute}

-- `|name:type` for each column.
unfoldable pub columns_text : List ColumnSchema → Text
columns_text [] = []
columns_text (c ∷ cs) = b'|' ∷ (c.name ++ (b':' ∷ (c.type_name ++ columns_text cs)))

unfoldable pub canonical : Text → Text → List ColumnSchema → Text
canonical schema table columns = schema ++ (b'.' ∷ (table ++ columns_text columns))

fnv_text-append : (h : ℕ) (xs ys : Text) → fnv_text h (xs ++ ys) ≡ fnv_text (fnv_text h xs) ys
unfolding fnv_text
fnv_text-append h [] ys = refl
fnv_text-append h (x ∷ xs) ys = fnv_text-append (fnv_byte h x) xs ys

fnv_columns-text :
    (h : ℕ) (cs : List ColumnSchema) → fnv_columns h cs ≡ fnv_text h (columns_text cs)
unfolding fnv_columns columns_text fnv_text
fnv_columns-text h [] = refl
fnv_columns-text h (c ∷ cs) =
    let h1 = fnv_byte h b'|' in
    let h2 = fnv_byte (fnv_text h1 c.name) b':' in
    fnv_columns-text (fnv_text h2 c.type_name) cs
    ∙ sym (fnv_text-append h2 c.type_name (columns_text cs))
    ∙ sym (fnv_text-append h1 c.name (b':' ∷ (c.type_name ++ columns_text cs)))

-- The fingerprint as a hash of one text.
compute-canonical :
    (schema table : Text) (columns : List ColumnSchema)
    → compute schema table columns ≡ fnv_text 0xcbf29ce484222325 (canonical schema table columns)
unfolding compute canonical fnv_text
compute-canonical schema table columns =
    let h = fnv_text 0xcbf29ce484222325 schema in
    fnv_columns-text (fnv_text (fnv_byte h b'.') table) columns
    ∙ sym (fnv_text-append (fnv_byte h b'.') table (columns_text columns))
    ∙ sym (fnv_text-append 0xcbf29ce484222325 schema (b'.' ∷ (table ++ columns_text columns)))

-- Two parts of a text, cut where a separator stands first.
abbrev Opens : ℕ → Text → Type 0
Opens c [] = Unit
Opens c (y ∷ ys) = y ≡ c

abbrev pub Lacks : ℕ → Text → Type 0
Lacks c s = All (λ x. x ≢ c) s

cut :
    (c : ℕ) (xs xs' ys ys' : Text)
    → Lacks c xs
    → Lacks c xs'
    → Opens c ys
    → Opens c ys'
    → xs ++ ys ≡ xs' ++ ys'
    → (xs ≡ xs') × (ys ≡ ys')
cut c [] [] ys ys' h h' o o' e = (refl, e)
cut c [] (x ∷ xs) [] ys' h h' o o' e = cc
cut c [] (x ∷ xs) (y ∷ ys) ys' h h' o o' e = let same : y ≡ x = cc in absurd (h'.0 (sym same ∙ o))
cut c (x ∷ xs) [] ys [] h h' o o' e = cc
cut c (x ∷ xs) [] ys (y ∷ ys') h h' o o' e = let same : x ≡ y = cc in absurd (h.0 (same ∙ o'))
cut c (x ∷ xs) (x' ∷ xs') ys ys' h h' o o' e =
    let heads : x ≡ x' = cc in
    let tails : xs ++ ys ≡ xs' ++ ys' = cc in
    let (first, second) = cut c xs xs' ys ys' h.1 h'.1 o o' tails in
    ((λ i. heads i ∷ first i), second)

columns_text-Opens : (cs : List ColumnSchema) → Opens b'|' (columns_text cs)
unfolding columns_text
columns_text-Opens [] = tt
columns_text-Opens (c ∷ cs) = refl

-- No separator where the next one is looked for.
abbrev pub IsPlainColumn : ColumnSchema → Type 0
IsPlainColumn c = Lacks b':' c.name × Lacks b'|' c.type_name

unfoldable pub name_and_type : ColumnSchema → Text × Text
name_and_type c = (c.name, c.type_name)

columns_text_injective :
    (cs ds : List ColumnSchema)
    → All IsPlainColumn cs
    → All IsPlainColumn ds
    → columns_text cs ≡ columns_text ds
    → map name_and_type cs ≡ map name_and_type ds
unfolding columns_text name_and_type
columns_text_injective [] [] h h' e = refl
columns_text_injective [] (d ∷ ds) h h' e = cc
columns_text_injective (c ∷ cs) [] h h' e = cc
columns_text_injective (c ∷ cs) (d ∷ ds) (h, hs) (h', hs') e =
    let e1 : c.name ++ (b':' ∷ (c.type_name ++ columns_text cs))
        ≡ d.name ++ (b':' ∷ (d.type_name ++ columns_text ds)) =
      cc in
    let (names, e2) =
      cut b':' c.name d.name (b':' ∷ (c.type_name ++ columns_text cs))
        (b':' ∷ (d.type_name ++ columns_text ds)) h.0 h'.0 refl refl e1 in
    let e3 : c.type_name ++ columns_text cs ≡ d.type_name ++ columns_text ds = cc in
    let (types, e4) =
      cut b'|' c.type_name d.type_name (columns_text cs) (columns_text ds) h.1 h'.1
        (columns_text-Opens cs) (columns_text-Opens ds) e3 in
    let rest = columns_text_injective cs ds hs hs' e4 in λ i. (names i, types i) ∷ rest i

-- Under these conditions the hashed text tells the schema, the table and the columns' names and types.
canonical_injective :
    (schema table schema' table' : Text) (cs ds : List ColumnSchema)
    → Lacks b'.' schema
    → Lacks b'.' schema'
    → Lacks b'|' table
    → Lacks b'|' table'
    → All IsPlainColumn cs
    → All IsPlainColumn ds
    → canonical schema table cs ≡ canonical schema' table' ds
    → (schema ≡ schema') × (table ≡ table') × (map name_and_type cs ≡ map name_and_type ds)
unfolding canonical
canonical_injective schema table schema' table' cs ds hs hs' ht ht' hc hd e =
    let (schemas, e1) =
      cut b'.' schema schema' (b'.' ∷ (table ++ columns_text cs))
        (b'.' ∷ (table' ++ columns_text ds)) hs hs' refl refl e in
    let e2 : table ++ columns_text cs ≡ table' ++ columns_text ds = cc in
    let (tables, e3) =
      cut b'|' table table' (columns_text cs) (columns_text ds) ht ht' (columns_text-Opens cs)
        (columns_text-Opens ds) e2 in
    (schemas, tables, columns_text_injective cs ds hc hd e3)

-- The fingerprint is the 64-bit FNV-1a hash of the text `schema.table|name:type|name:type…`. Two
-- tables whose schemas have no dot, whose names and column types have no `|` and whose column names
-- have no colon, and that differ in the schema, the name or the columns' names and types, have
-- different texts: only a collision of the hash gives them one fingerprint.
pub compute_texts :
    (schema table schema' table' : Text) (cs ds : List ColumnSchema)
    → Lacks b'.' schema
    → Lacks b'.' schema'
    → Lacks b'|' table
    → Lacks b'|' table'
    → All IsPlainColumn cs
    → All IsPlainColumn ds
    → ¬ ((schema ≡ schema') × (table ≡ table') × (map name_and_type cs ≡ map name_and_type ds))
    → (compute schema table cs ≡ fnv_text 0xcbf29ce484222325 (canonical schema table cs))
      × (compute schema' table' ds ≡ fnv_text 0xcbf29ce484222325 (canonical schema' table' ds))
      × (canonical schema table cs ≢ canonical schema' table' ds)
compute_texts schema table schema' table' cs ds hs hs' ht ht' hc hd differ = (
  compute-canonical schema table cs,
  compute-canonical schema' table' ds,
  λ e. differ (canonical_injective schema table schema' table' cs ds hs hs' ht ht' hc hd e),
)

abbrev pub column : Text → Text → ColumnSchema
column name type_name = record {
  name = name;
  type_oid = 0;
  type_name = type_name;
  is_nullable = true;
  is_primary_key = false;
  ordinal_position = 1;
}

-- A table of one column whose name has the form `a:t|b` has the fingerprint of a table of the same
-- name with two columns, `a` of type `t` and `b`.
pub compute_collides :
    (schema table a t b u : Text)
    → compute schema table (column (a ++ (b':' ∷ (t ++ (b'|' ∷ b)))) u ∷ [])
      ≡ compute schema table (column a t ∷ (column b u ∷ []))
compute_collides schema table a t b u =
    let one = column (a ++ (b':' ∷ (t ++ (b'|' ∷ b)))) u ∷ [] in
    let two = column a t ∷ (column b u ∷ []) in
    let same : canonical schema table one ≡ canonical schema table two =
      unfold canonical columns_text in simp append_assoc in
    compute-canonical schema table one
    ∙ ap (λ s. fnv_text 0xcbf29ce484222325 s) same
    ∙ sym (compute-canonical schema table two)
