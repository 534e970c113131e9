-- ===== src/Pgsql/Schema/Loaded.antt =====
-- What loading a publication does to the registry, on every outcome.
use nendi.Common.{
  ℕ, ◌≡◌, ◌≢◌, inl, inr, refl, sym, ◌∙◌, Bool, true, false, Bool-cases, Option-cases, none, some,
  List, [], ◌∷◌, ◌++◌, Text, All, lookup, lookup-insert, lookup-insert_self, text_eq, text_eq_iff,
  text_eq_instance, split_once, split_once_parts, if◌then◌else◌, add_u64,
}
use mathlib.Core.Path.{subst}
use nendi.Common.Cursor.{Outcome, ok, err, panic}
use nendi.Common.Effects.{◌>>=◌, bind_rule, or_panic}
use nendi.Pgsql.Client.{PgServer, PgError, asked, publication_tables, get_all}
use nendi.Pgsql.Schema.{
  ColumnSchema, TableSchema, SchemaRegistry, compute, upsert, get, columns_of, schema_columns_sql,
  primary_key_sql, rows_or_none, Load, on_server, put, load_table, load_loop,
  load_publication_schemas,
}

-- A schema that stands under its own name, with its own fingerprint.
pub record IsOwn (k : Text) (s : TableSchema) : Type 0 where
  pub key : k ≡ s.schema ++ (b'.' ∷ s.table)
  pub hashed : s.fingerprint ≡ compute s.schema s.table s.columns

pub record IsSound (r : SchemaRegistry) : Type 0 where
  pub own : (k : Text) (s : TableSchema) → get k r ≡ some s → IsOwn k s

abbrev pub Has : Text → SchemaRegistry → Type 0
Has k r = (s : TableSchema) × (get k r ≡ some s)

upsert-IsSound :
    (k : Text) (s : TableSchema) (r : SchemaRegistry)
    → IsOwn k s
    → IsSound r
    → IsSound (upsert k s r)
unfolding upsert get
upsert-IsSound k s r new v = record {
  own = λ j t found. by_key j t (rw (lookup-insert k j s r) at found);
}
  where
    by_key :
        (j : Text) (t : TableSchema)
        → (if text_eq k j then some s else lookup j r) ≡ some t
        → IsOwn j t
    by_key j t found = elim (Bool-cases (text_eq k j)) [
      | inl same ↦
          let st : some s ≡ some t = rw same at found in
          let st' : s ≡ t = cc in let kj : k ≡ j = (text_eq_iff k j).0 same in rw (← kj, ← st') new
      | inr other ↦ v.own j t (rw other at found)
    ]

-- What a step that concerns the tables `ks` may do to a registry.
pub record Grows (ks : List Text) (r r' : SchemaRegistry) : Type 0 where
  pub sound : IsSound r → IsSound r'
  pub kept : (k : Text) → Has k r → Has k r'
  pub others : (k : Text) → All (λ j. j ≢ k) ks → get k r' ≡ get k r

Grows-refl : (ks : List Text) (r : SchemaRegistry) → Grows ks r r
Grows-refl ks r = record { sound = λ v. v; kept = λ k h. h; others = λ k h. refl }

Grows-upsert :
    (k : Text) (s : TableSchema) (ks : List Text) (r : SchemaRegistry)
    → IsOwn k s
    → Grows (k ∷ ks) r (upsert k s r)
unfolding upsert get
Grows-upsert k s ks r new = record {
  sound = λ v. upsert-IsSound k s r new v;
  kept = λ j h. rw (lookup-insert k j s r) (by_key j h (text_eq k j));
  others = λ j h. rw (lookup-insert k j s r) (missed j h.0);
}
  where
    by_key :
        (j : Text)
        → Has j r
        → (b : Bool) → (t : TableSchema) × ((if b then some s else lookup j r) ≡ some t)
    by_key j h true = (s, refl)
    by_key j h false = h

    missed : (j : Text) → k ≢ j → (if text_eq k j then some s else lookup j r) ≡ lookup j r
    missed j ne = elim (Bool-cases (text_eq k j)) [
      | inl same ↦ absurd (ne ((text_eq_iff k j).0 same))
      | inr other ↦ rw other refl
    ]

found_upsert : (k : Text) (s : TableSchema) (r : SchemaRegistry) → Has k (upsert k s r)
unfolding get upsert
found_upsert k s r = (s, lookup-insert_self k s r)

Grows-trans :
    (k : Text) (ks : List Text) (r r1 r2 : SchemaRegistry)
    → Grows (k ∷ []) r r1
    → Grows ks r1 r2
    → Grows (k ∷ ks) r r2
Grows-trans k ks r r1 r2 a b = record {
  sound = λ v. b.sound (a.sound v);
  kept = λ j h. b.kept j (a.kept j h);
  others = λ j h. b.others j h.1 ∙ a.others j (h.0, tt);
}

module _ (pg : PgServer) where
  -- One table, on every outcome: a successful one has put it into the registry.
  abbrev Loads :
      Text → SchemaRegistry → Outcome PgError (Unit {0}) × (pg.Server × SchemaRegistry) → Type 0
  Loads k r q = Grows (k ∷ []) r q.1.1 × (q.0 ≡ ok tt → Has k q.1.1)

  load_table-Loads :
      (k schema table : Text) (p : pg.Server × SchemaRegistry)
      → k ≡ schema ++ (b'.' ∷ table)
      → Loads k p.1 (load_table pg k schema table p)
  unfolding load_table
  load_table-Loads k schema table p own =
      let r = p.1 in
      let same = Grows-refl (k ∷ []) r in
      let stops : (e : PgError) (s : pg.Server) → Loads k r (err e, (s, r)) =
        λ e s. (same, λ h. cc) in
      let columns_call =
        on_server pg (asked pg (pg.query schema_columns_sql (schema ∷ (table ∷ [])))) in
      let key_call =
        on_server pg (rows_or_none pg (pg.query primary_key_sql (schema ∷ (table ∷ [])))) in
      let schema_of : List ColumnSchema → TableSchema = λ cs. record {
        schema = schema;
        table = table;
        columns = cs;
        fingerprint = compute schema table cs;
      } in
      let store : List ColumnSchema → Load pg (Unit {0}) = λ cs. put pg k (schema_of cs) in
      let with_names : List pg.Row → List Text → Load pg (Unit {0}) =
        λ rows pk_names. or_panic (columns_of pg pk_names rows) >>= store in
      let with_key : List pg.Row → List pg.Row → Load pg (Unit {0}) =
        λ rows pk_rows. or_panic (get_all pg pk_rows 0) >>= with_names rows in
      bind_rule (Loads k r) columns_call (λ rows. key_call >>= with_key rows) p
        (λ rows.
          let p1 = (columns_call p).1 in
          bind_rule (Loads k r) key_call (with_key rows) p1
            (λ pk_rows.
              let p2 = (key_call p1).1 in
              bind_rule (Loads k r) (or_panic (get_all pg pk_rows 0)) (with_names rows) p2
                (λ pk_names.
                  bind_rule (Loads k r) (or_panic (columns_of pg pk_names rows)) store p2
                    (λ columns. (
                      Grows-upsert k (schema_of columns) [] r (record { key = own; hashed = refl }),
                      λ h. found_upsert k (schema_of columns) r,
                    ))
                    (λ e. stops e p2.0) (same, λ h. cc))
                (λ e. stops e p2.0) (same, λ h. cc))
            (λ e. stops e (key_call p1).1.0) (same, λ h. cc))
        (λ e. stops e (columns_call p).1.0) (same, λ h. cc)

  abbrev pub Listed : List Text → SchemaRegistry → Type 0
  Listed ks r = All (λ k. split_once b'.' k ≢ none → Has k r) ks

  abbrev pub LoadsAll :
      List Text → SchemaRegistry → Outcome PgError ℕ × (pg.Server × SchemaRegistry) → Type 0
  LoadsAll ks r q = Grows ks r q.1.1 × ((n : ℕ) → q.0 ≡ ok n → Listed ks q.1.1)

  Grows-skip :
      (k : Text) (ks : List Text) (r r' : SchemaRegistry) → Grows ks r r' → Grows (k ∷ ks) r r'
  Grows-skip k ks r r' g = record { sound = g.sound; kept = g.kept; others = λ j h. g.others j h.1 }

  load_loop-LoadsAll :
      (ks : List Text) (count : ℕ) (p : pg.Server × SchemaRegistry)
      → LoadsAll ks p.1 (load_loop pg ks count p)
  unfolding load_loop
  load_loop-LoadsAll [] count p = (Grows-refl [] p.1, λ n h. tt)
  load_loop-LoadsAll (k ∷ ks) count p = elim (Option-cases (split_once b'.' k)) [
    | inl no_dot ↦
        let (grows, listed) = load_loop-LoadsAll ks count p in
        let skipped : load_loop pg (k ∷ ks) count p ≡ load_loop pg ks count p =
          rw (no_dot, load_loop) refl in
        subst (LoadsAll (k ∷ ks) p.1) (sym skipped)
          (Grows-skip k ks p.1 _ grows, λ n h. ((λ dot. absurd (dot no_dot)), listed n h))
    | inr (parts, dot) ↦
        let own = (split_once_parts b'.' k parts.0 parts.1 dot).0 in
        let one = load_table pg k parts.0 parts.1 in
        let loaded : load_loop pg (k ∷ ks) count p
            ≡ (one >>= λ _. load_loop pg ks (add_u64 count 1)) p =
          rw (dot, load_loop) refl in
        subst (LoadsAll (k ∷ ks) p.1) (sym loaded) (
          by_table (one p) (load_table-Loads k parts.0 parts.1 p own)
            (load_loop-LoadsAll ks (add_u64 count 1) (one p).1))
  ]
    where
      by_table :
          (q : Outcome PgError (Unit {0}) × (pg.Server × SchemaRegistry))
          → Loads k p.1 q
          → LoadsAll ks q.1.1 (load_loop pg ks (add_u64 count 1) q.1)
          → LoadsAll
              (k ∷ ks)
              p.1
              (elim (q.0) as (λ _. Outcome PgError ℕ × (pg.Server × SchemaRegistry)) [
                | ok a ↦ load_loop pg ks (add_u64 count 1) q.1
                | err e ↦ (err e, q.1)
                | panic ↦ (panic, q.1)
              ])
      by_table (ok a, p1) (first, found) (grows, listed) = (
        Grows-trans k ks p.1 p1.1 _ first grows,
        λ n h. ((λ dot. grows.kept k (found refl)), listed n h),
      )
      by_table (err e, p1) (first, found) rest =
          (Grows-trans k ks p.1 p1.1 p1.1 first (Grows-refl ks p1.1), λ n h. cc)
      by_table (panic, p1) (first, found) rest =
          (Grows-trans k ks p.1 p1.1 p1.1 first (Grows-refl ks p1.1), λ n h. cc)

  -- Loading a publication whose tables the server lists as `ks`. However it ends, errors included, a
  -- registry in which each schema stands under its own name with the fingerprint of its own columns
  -- stays so; no table is lost; and tables that are not listed are as they were. If it succeeds, each
  -- listed table whose name has a dot is there.
  pub load_publication_schemas_lem :
      (name : Text) (ks : List Text) (p : pg.Server × SchemaRegistry)
      → (publication_tables pg name p.0).0 ≡ ok ks
      → LoadsAll ks p.1 (load_publication_schemas pg name p)
  unfolding load_publication_schemas
  load_publication_schemas_lem name ks p listed =
      rw (listed, ◌>>=◌) (load_loop-LoadsAll ks 0 ((publication_tables pg name p.0).1, p.1))
