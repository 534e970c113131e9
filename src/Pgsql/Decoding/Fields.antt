-- ===== src/Pgsql/Decoding/Fields.antt =====
-- The decoder on the fields that PostgreSQL sends: numbers, names, values, rows, relations.
use nendi.Common.{
  get_elem?-append, ℕ, ◌%◌, ◌==◌, ◌+◌, ◌<◌, ◌^◌, ◌≡◌, refl, sym, ap, ◌∙◌, arith, Bool, true, false,
  if◌then◌else◌, some, List, [], ◌∷◌, ◌++◌, append_assoc, append-nil, Bytes, be, length, length-be,
  length-append, All, get_elem?, nat_eq, split_once-append,
}
use nendi.Common.Cursor.{bind_ok, ok, ◌>>=◌, index, ensure_ok, word-be, text-append, slice-append}
use nendi.Pgsql.Decoding.Tuples.{
  DecodeError, ColumnMeta, read_u8, read_u16, read_u32, read_cstring, read_value, read_text,
  read_binary, column_value, decode_columns, decode_tuple_data,
}
use nendi.Pgsql.Decoding.Wire.{
  WireValue, null, unchanged, textual, binary, wire_value, wire_values, wire_tuple, meaning, row_of,
  IsWireValue, IsTuple, identity_byte, IsCString, wire_columns, IsColumn, wire_relation, IsRelation,
}
use nendi.Pgsql.Decoding.{
  RelationInfo, identity_of, ReplicaIdentity, decode_column_metas, decode_relation,
}

pub read_u8-cons : (b : ℕ) (rest : Bytes) → read_u8 (b ∷ rest) ≡ ok (b, rest)
unfolding read_u8 index
read_u8-cons b rest = rw (ensure_ok 1 DecodeError.unexpected_end (b ∷ rest) (omega arith), ◌>>=◌)

pub read_u16-be : (v : ℕ) (rest : Bytes) → v < 2 ^ 16 → read_u16 (be 2 v ++ rest) ≡ ok (v, rest)
unfolding read_u16
read_u16-be v rest h =
    rw
      (
        ensure_ok 2 DecodeError.unexpected_end (be 2 v ++ rest)
            (omega (arith, length-append {0}, length-be)),
        ◌>>=◌,
      )
      (word-be 2 v rest h)

pub read_u32-be : (v : ℕ) (rest : Bytes) → v < 2 ^ 32 → read_u32 (be 4 v ++ rest) ≡ ok (v, rest)
unfolding read_u32
read_u32-be v rest h =
    rw
      (
        ensure_ok 4 DecodeError.unexpected_end (be 4 v ++ rest)
            (omega (arith, length-append {0}, length-be)),
        ◌>>=◌,
      )
      (word-be 4 v rest h)

read_cstring-append : (s rest : Bytes) → IsCString s → read_cstring (s ++ (0 ∷ rest)) ≡ ok (s, rest)
unfolding read_cstring
read_cstring-append s rest (u, plain) =
    rw (split_once-append 0 s rest plain, read_cstring) (rw (u, if◌then◌else◌))

read_value-wire_value :
    (v : WireValue) (rest : Bytes)
    → IsWireValue v
    → (read_u8 >>= λ tag. read_value tag) (wire_value v ++ rest) ≡ ok (meaning v, rest)
unfolding read_value wire_value meaning read_text read_binary
read_value-wire_value null rest h = rw (read_u8-cons b'n' rest, ◌>>=◌)
read_value-wire_value unchanged rest h = rw (read_u8-cons b'u' rest, ◌>>=◌)
read_value-wire_value (textual t) rest (u, short) =
    rw (read_u8-cons b't' _, ◌>>=◌)
      (rw (append_assoc, read_u32-be (length t) (t ++ rest) short, ◌>>=◌)
        (rw
          (
            ensure_ok (length t) DecodeError.text_beyond (t ++ rest)
                (omega (arith, length-append {0})),
            ◌>>=◌,
          )
          (rw (text-append DecodeError.bad_utf8 (length t) t rest u refl, ◌>>=◌))))
read_value-wire_value (binary bs) rest short =
    rw (read_u8-cons b'b' _, ◌>>=◌)
      (rw (append_assoc, read_u32-be (length bs) (bs ++ rest) short, ◌>>=◌)
        (rw
          (
            ensure_ok (length bs) DecodeError.binary_beyond (bs ++ rest)
                (omega (arith, length-append {0})),
            ◌>>=◌,
          )
          (rw (slice-append (length bs) bs rest refl, ◌>>=◌))))

decode_columns-wire_values :
    (columns front cs : List ColumnMeta) (vs : List WireValue) (i : ℕ) (rest : Bytes)
    → columns ≡ front ++ cs
    → i ≡ length front
    → length vs ≡ length cs
    → All IsWireValue vs
    → decode_columns columns (length vs) i (wire_values vs ++ rest) ≡ ok (row_of cs vs, rest)
unfolding decode_columns wire_values row_of column_value
decode_columns-wire_values columns front [] [] i rest split at as_many h = refl
decode_columns-wire_values columns front (c ∷ cs) [] i rest split at as_many h =
    absurd (omega arith)
decode_columns-wire_values columns front [] (v ∷ vs) i rest split at as_many h =
    absurd (omega arith)
decode_columns-wire_values columns front (c ∷ cs) (v ∷ vs) i rest split at as_many (hv, hvs) =
    rw append_assoc (
      bind_ok read_u8 read_value _ (wire_value v ++ (wire_values vs ++ rest))
        (read_value-wire_value v (wire_values vs ++ rest) hv)
      ∙ rw
          (
            decode_columns-wire_values columns (front ++ (c ∷ [])) cs vs (i + 1) rest
                (split ∙ sym (append_assoc front (c ∷ []) cs))
                (omega (arith, length-append {0} front (c ∷ []))) (omega arith) hvs,
            ◌>>=◌,
          )
          (rw (here, column_value)))
  where
    here : get_elem? columns i ≡ some c
    here = rw (split, at) (get_elem?-append front c cs)

pub decode_tuple_data-wire_tuple :
    (cs : List ColumnMeta) (vs : List WireValue) (rest : Bytes)
    → IsTuple cs vs
    → decode_tuple_data cs (wire_tuple vs ++ rest) ≡ ok (record { columns = row_of cs vs }, rest)
unfolding decode_tuple_data wire_tuple
decode_tuple_data-wire_tuple cs vs rest t =
    rw (append_assoc, read_u16-be (length vs) (wire_values vs ++ rest) t.few, ◌>>=◌)
      (rw (decode_columns-wire_values cs [] cs vs 0 rest refl refl t.as_many t.values, ◌>>=◌))

decode_column_metas-wire_columns :
    (cs : List ColumnMeta) (ms : List ℕ) (rest : Bytes)
    → All IsColumn cs
    → length ms ≡ length cs
    → All (λ m. m < 2 ^ 32) ms
    → decode_column_metas (length cs) (wire_columns cs ms ++ rest) ≡ ok (cs, rest)
unfolding decode_column_metas wire_columns
decode_column_metas-wire_columns [] [] rest h as_many fit = refl
decode_column_metas-wire_columns [] (m ∷ ms) rest h as_many fit = absurd (omega arith)
decode_column_metas-wire_columns (c ∷ cs) [] rest h as_many fit = absurd (omega arith)
decode_column_metas-wire_columns (c ∷ cs) (m ∷ ms) rest (hc, hcs) as_many (hm, hms) =
    rw (read_u8-cons _ _, ◌>>=◌)
      (rw (append_assoc, read_cstring-append c.name _ hc.name, ◌>>=◌)
        (rw (append_assoc, read_u32-be c.type_oid _ hc.type_oid, ◌>>=◌)
          (rw (append_assoc, read_u32-be m _ hm, ◌>>=◌)
            (rw (decode_column_metas-wire_columns cs ms rest hcs (omega arith) hms, ◌>>=◌)
              (ap (λ k. ok (k ∷ cs, rest)) (same_column c))))))
  where
    key_flag : (b : Bool) → ((if b then 1 else 0) % 2 == 1) ≡ b
    key_flag true = refl
    key_flag false = refl

    same_column :
        (c : ColumnMeta)
        → record {
          name = c.name;
          type_oid = c.type_oid;
          is_key = (if c.is_key then 1 else 0) % 2 == 1;
        }
          ≡ c
    same_column c = rw key_flag refl

identity_of-identity_byte : (r : ReplicaIdentity) → identity_of (identity_byte r) ≡ r
unfolding identity_of identity_byte
identity_of-identity_byte ReplicaIdentity.default = refl
identity_of-identity_byte ReplicaIdentity.nothing = refl
identity_of-identity_byte ReplicaIdentity.full = refl
identity_of-identity_byte ReplicaIdentity.index_key = refl

pub decode_relation-wire_relation :
    (rel_id : ℕ) (rel : RelationInfo) (modifiers : List ℕ)
    → rel_id < 2 ^ 32
    → IsRelation rel modifiers
    → decode_relation (wire_relation rel_id rel modifiers) ≡ ok ((rel_id, rel), [])
unfolding decode_relation wire_relation
decode_relation-wire_relation rel_id rel modifiers hid h =
    rw (read_u32-be rel_id _ hid, ◌>>=◌)
      (rw (read_cstring-append rel.schema _ h.schema, ◌>>=◌)
        (rw (read_cstring-append rel.table _ h.table, ◌>>=◌)
          (rw (read_u8-cons _ _, ◌>>=◌)
            (rw (read_u16-be (length rel.columns) _ h.few, ◌>>=◌)
              (rw (metas, ◌>>=◌) (rw identity_of-identity_byte refl))))))
  where
    metas :
        decode_column_metas (length rel.columns) (wire_columns rel.columns modifiers)
        ≡ ok (rel.columns, [])
    metas = rw append-nil at (
        decode_column_metas-wire_columns rel.columns modifiers [] h.columns h.as_many
          h.modifiers_fit)
