-- ===== src/Pgsql/Decoding.antt =====
-- services/pgsql/src/decoding/pgoutput.rs: the messages of PostgreSQL's logical replication.
pub mod Tuples
pub mod Wire
pub mod NoPanic
pub mod Fields
pub mod Messages
pub mod Context
pub mod Samples
mod Tests
use nendi.Common.{
  ℕ, zero, suc, ◌+◌, ◌%◌, Bool, true, false, ◌||◌, Option, none, some, List, [], ◌∷◌, ◌++◌, Bytes,
  Text, Dict, nat_eq, lookup, insert, length, ltb, ◌==◌, if◌then◌else◌, is_utf8, split_once,
  hex_encode, codes,
}
use nendi.Common.Cursor.{
  Outcome, ok, err, panic, Reader, ◌>>=◌, ◌>>◌, pure, fail, index, word, text, slice, ensure,
}
use nendi.Shared.Lsn.{Lsn}
use nendi.Shared.Event.{OpType, TableId, ColumnValue, RowData, ChangeEvent}
use nendi.Pgsql.Decoding.Tuples.{
  DecodeError, begin_too_short, commit_too_short, insert_tag, relation_not_found, ColumnMeta,
  read_u8, read_u16, read_u32, read_cstring, decode_tuple_data,
}

pub data ReplicaIdentity : Type 0 where
  default nothing full index_key : ReplicaIdentity

pub record RelationInfo : Type 0 where
  pub schema : Text
  pub table : Text
  pub columns : List ColumnMeta
  pub replica_identity : ReplicaIdentity

-- The decoder's only changing field: relation id ↦ its latest description.
abbrev pub Relations : Type 0
Relations = Dict ℕ RelationInfo

unfoldable pub decode_begin : Bytes → Outcome DecodeError (Unit {0} × Bytes)
decode_begin = do
  ensure 20 begin_too_short
  final_lsn ← word 8
  commit_ts ← word 8
  xid ← word 4
  pure tt

unfoldable pub decode_commit : Bytes → Outcome DecodeError (Unit {0} × Bytes)
decode_commit = do ensure 25 commit_too_short; flags ← index; commit_lsn ← word 8; pure tt

unfoldable pub identity_of : ℕ → ReplicaIdentity
identity_of b =
    if b == b'd'
    then default
    else if b == b'n'
    then nothing
    else if b == b'f'
    then full
    else if b == b'i'
    then index_key
    else default

-- `flags & 1` is the last binary digit.
unfoldable pub decode_column_metas : ℕ → Reader DecodeError (List ColumnMeta)
decode_column_metas zero = pure []
decode_column_metas (suc n) = do
  flags ← read_u8
  name ← read_cstring
  type_oid ← read_u32
  type_modifier ← read_u32
  columns ← decode_column_metas n
  pure (record { name = name; type_oid = type_oid; is_key = flags % 2 == 1 } ∷ columns)

-- The relation's id and description; `decode` enters them into the map.
unfoldable pub decode_relation : Reader DecodeError (ℕ × RelationInfo)
decode_relation = do
  rel_id ← read_u32
  schema ← read_cstring
  table ← read_cstring
  replica ← read_u8
  n_cols ← read_u16
  columns ← decode_column_metas n_cols
  pure (
    rel_id,
    record {
      schema = schema;
      table = table;
      columns = columns;
      replica_identity = identity_of replica;
    },
  )

unfoldable pub find_relation : Relations → ℕ → Reader DecodeError RelationInfo
find_relation relations rel_id = elim (lookup rel_id relations) [
  | none ↦ fail (relation_not_found rel_id)
  | some rel ↦ pure rel
]

old_tuple : List ColumnMeta → Reader DecodeError (Option RowData)
old_tuple columns = do before ← decode_tuple_data columns; new_tag ← read_u8; pure (some before)

-- The old tuple, if the tag announces one, and the tag behind it.
unfoldable pub decode_old_tuple : List ColumnMeta → ℕ → Reader DecodeError (Option RowData)
unfolding old_tuple
decode_old_tuple columns tag = if tag == b'K' || tag == b'O' then old_tuple columns else pure none

-- `compute_fingerprint` hashes a relation by the standard library's `DefaultHasher`, whose algorithm
-- is not specified: it is a parameter.
module _ (compute_fingerprint : RelationInfo → ℕ) where
  unfoldable pub event_of :
      Lsn → OpType → RelationInfo → Option RowData → Option RowData → ChangeEvent
  event_of lsn op rel after before = record {
    lsn = lsn;
    xid = 0;
    op = op;
    table = record { schema = rel.schema; table = rel.table };
    schema_fingerprint = compute_fingerprint rel;
    after = after;
    before = before;
    commit_timestamp_us = 0;
  }

  unfoldable pub decode_insert : Relations → Lsn → Reader DecodeError (Option ChangeEvent)
  decode_insert relations lsn = do
    rel_id ← read_u32
    tag ← read_u8
    if tag == b'N' then pure tt else fail (insert_tag tag)
    rel ← find_relation relations rel_id
    after ← decode_tuple_data rel.columns
    pure (some (event_of lsn OpType.insert rel (some after) none))

  unfoldable pub decode_update : Relations → Lsn → Reader DecodeError (Option ChangeEvent)
  decode_update relations lsn = do
    rel_id ← read_u32
    rel ← find_relation relations rel_id
    tag ← read_u8
    before ← decode_old_tuple rel.columns tag
    after ← decode_tuple_data rel.columns
    pure (some (event_of lsn OpType.update rel (some after) before))

  unfoldable pub decode_delete : Relations → Lsn → Reader DecodeError (Option ChangeEvent)
  decode_delete relations lsn = do
    rel_id ← read_u32
    rel ← find_relation relations rel_id
    tag ← read_u8
    before ← decode_tuple_data rel.columns
    pure (some (event_of lsn OpType.delete rel none (some before)))

  truncated : Relations → Lsn → Reader DecodeError (Option ChangeEvent)
  truncated relations lsn = do
    rel_id ← read_u32
    pure (elim (lookup rel_id relations) [
      | none ↦ none
      | some rel ↦ some (event_of lsn OpType.truncate rel none none)
    ])

  unfoldable pub decode_truncate : Relations → Lsn → Reader DecodeError (Option ChangeEvent)
  unfolding truncated
  decode_truncate relations lsn = do
    n_rels ← read_u32
    options ← read_u8
    if ltb 0 n_rels then truncated relations lsn else pure none

  abbrev pub Decoded : Type 0
  Decoded = Outcome DecodeError (Option ChangeEvent × Relations)

  -- Keeps the relations beside an event.
  unfoldable pub with_event : Relations → Outcome DecodeError (Option ChangeEvent × Bytes) → Decoded
  with_event relations (ok (event, _)) = ok (event, relations)
  with_event relations (err e) = err e
  with_event relations panic = panic

  unfoldable pub without_event : Relations → Outcome DecodeError (Unit {0} × Bytes) → Decoded
  without_event relations (ok _) = ok (none, relations)
  without_event relations (err e) = err e
  without_event relations panic = panic

  unfoldable pub with_relation :
      Relations → Outcome DecodeError ((ℕ × RelationInfo) × Bytes) → Decoded
  with_relation relations (ok ((rel_id, rel), _)) = ok (none, insert rel_id rel relations)
  with_relation relations (err e) = err e
  with_relation relations panic = panic

  -- What follows a message's last field is not looked at.
  unfoldable pub decode : Relations → Lsn → Bytes → Decoded
  decode relations lsn [] = ok (none, relations)
  decode relations lsn (tag ∷ payload) =
      if tag == b'B'
      then without_event relations (decode_begin payload)
      else if tag == b'C'
      then without_event relations (decode_commit payload)
      else if tag == b'R'
      then with_relation relations (decode_relation payload)
      else if tag == b'I'
      then with_event relations (decode_insert relations lsn payload)
      else if tag == b'U'
      then with_event relations (decode_update relations lsn payload)
      else if tag == b'D'
      then with_event relations (decode_delete relations lsn payload)
      else if tag == b'T'
      then with_event relations (decode_truncate relations lsn payload)
      else ok (none, relations)
