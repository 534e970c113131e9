-- ===== src/Pgsql/Decoding/Messages.antt =====
-- The decoder on the messages that PostgreSQL sends.
use nendi.Common.{
  ℕ, ◌<◌, ◌^◌, ◌≡◌, Option, none, some, List, [], append-nil, Bytes, lookup, insert, nat_eq,
}
use nendi.Common.Cursor.{ok, ◌>>=◌}
use nendi.Shared.Lsn.{Lsn}
use nendi.Shared.Event.{OpType}
use nendi.Pgsql.Decoding.Tuples.{ColumnMeta, decode_tuple_data}
use nendi.Pgsql.Decoding.Wire.{
  OldTuple, key_tuple, full_tuple, old_values, wire_old, WireValue, wire_tuple, row_of, IsTuple,
  IsOldTuple, old_row, IsRelation, relation_message, insert_message, update_message, delete_message,
}
use nendi.Pgsql.Decoding.{
  RelationInfo, Relations, find_relation, event_of, decode_insert, decode_old_tuple, decode_update,
  decode_delete, with_event, with_relation, decode,
}
use nendi.Pgsql.Decoding.Fields.{
  read_u8-cons, read_u32-be, decode_tuple_data-wire_tuple, decode_relation-wire_relation,
}

module _ (compute_fingerprint : RelationInfo → ℕ) (rs : Relations) (lsn : Lsn) (rel_id : ℕ) where
  -- A Relation message enters the relation that it describes under its id, in place of an older
  -- description, and gives no event. Its id is a `u32`, and the description fits the message: names
  -- are UTF-8 without zero bytes, OIDs are `u32`, and there are fewer than 2 ^ 16 columns, each
  -- with a type modifier of 32 bits.
  pub decode-relation_message :
      (rel : RelationInfo) (modifiers : List ℕ)
      → rel_id < 2 ^ 32
      → IsRelation rel modifiers
      → decode compute_fingerprint rs lsn (relation_message rel_id rel modifiers)
        ≡ ok (none, insert rel_id rel rs)
  unfolding decode relation_message with_relation
  decode-relation_message rel modifiers hid h =
      rw (decode_relation-wire_relation rel_id rel modifiers hid h, with_relation)

  known_relation :
      {rel : RelationInfo} (s : Bytes)
      → lookup rel_id rs ≡ some rel
      → find_relation rs rel_id s ≡ ok (rel, s)
  unfolding find_relation
  known_relation s h = rw (h, find_relation)

  last_tuple :
      (cs : List ColumnMeta) (vs : List WireValue)
      → IsTuple cs vs
      → decode_tuple_data cs (wire_tuple vs) ≡ ok (record { columns = row_of cs vs }, [])
  last_tuple cs vs t = rw append-nil at (decode_tuple_data-wire_tuple cs vs [] t)

  -- An Insert message for a known relation gives the insert event of that table, with the sent values
  -- under the relation's column names and types.
  -- The id is a `u32`, and a row has one value for each of fewer than 2 ^ 16 columns, of a length below
  -- 2 ^ 32, texts being UTF-8.
  pub decode-insert_message :
      (rel : RelationInfo) (new : List WireValue)
      → rel_id < 2 ^ 32
      → lookup rel_id rs ≡ some rel
      → IsTuple rel.columns new
      → decode compute_fingerprint rs lsn (insert_message rel_id new)
        ≡ ok (
          some (
              event_of compute_fingerprint lsn OpType.insert rel
                (some (record { columns = row_of rel.columns new }))
                none),
          rs,
        )
  unfolding decode insert_message with_event decode_insert
  decode-insert_message rel new hid known t =
      rw (read_u32-be rel_id _ hid, ◌>>=◌)
        (rw (read_u8-cons b'N' _, ◌>>=◌)
          (rw (known_relation _ known, ◌>>=◌) (rw (last_tuple rel.columns new t, ◌>>=◌))))

  -- An Update message for a known relation gives the update event of that table, with the new values
  -- behind it and, if PostgreSQL sent the old row or its key, the old values before it.
  -- The id is a `u32`, and a row has one value for each of fewer than 2 ^ 16 columns, of a length below
  -- 2 ^ 32, texts being UTF-8.
  pub decode-update_message :
      (rel : RelationInfo) (old : Option OldTuple) (new : List WireValue)
      → rel_id < 2 ^ 32
      → lookup rel_id rs ≡ some rel
      → IsOldTuple rel.columns old
      → IsTuple rel.columns new
      → decode compute_fingerprint rs lsn (update_message rel_id old new)
        ≡ ok (
          some (
              event_of compute_fingerprint lsn OpType.update rel
                (some (record { columns = row_of rel.columns new }))
                (old_row rel.columns old)),
          rs,
        )
  unfolding decode update_message with_event decode_update decode_old_tuple old_row wire_old
      old_values
  decode-update_message rel none new hid known told t =
      rw (read_u32-be rel_id _ hid, ◌>>=◌)
        (rw (known_relation _ known, ◌>>=◌)
          (rw (read_u8-cons b'N' _, ◌>>=◌) (rw (last_tuple rel.columns new t, ◌>>=◌))))
  decode-update_message rel (some (key_tuple old)) new hid known told t =
      rw (read_u32-be rel_id _ hid, ◌>>=◌)
        (rw (known_relation _ known, ◌>>=◌)
          (rw (read_u8-cons b'K' _, ◌>>=◌)
            (rw (decode_tuple_data-wire_tuple rel.columns old _ told, ◌>>=◌)
              (rw (read_u8-cons b'N' _, ◌>>=◌) (rw (last_tuple rel.columns new t, ◌>>=◌))))))
  decode-update_message rel (some (full_tuple old)) new hid known told t =
      rw (read_u32-be rel_id _ hid, ◌>>=◌)
        (rw (known_relation _ known, ◌>>=◌)
          (rw (read_u8-cons b'O' _, ◌>>=◌)
            (rw (decode_tuple_data-wire_tuple rel.columns old _ told, ◌>>=◌)
              (rw (read_u8-cons b'N' _, ◌>>=◌) (rw (last_tuple rel.columns new t, ◌>>=◌))))))

  -- A Delete message for a known relation gives the delete event of that table, with the old values
  -- before it and nothing behind it.
  -- The id is a `u32`, and a row has one value for each of fewer than 2 ^ 16 columns, of a length below
  -- 2 ^ 32, texts being UTF-8.
  pub decode-delete_message :
      (rel : RelationInfo) (old : OldTuple)
      → rel_id < 2 ^ 32
      → lookup rel_id rs ≡ some rel
      → IsTuple rel.columns (old_values old)
      → decode compute_fingerprint rs lsn (delete_message rel_id old)
        ≡ ok (
          some (
              event_of compute_fingerprint lsn OpType.delete rel none
                (some (record { columns = row_of rel.columns (old_values old) }))),
          rs,
        )
  unfolding decode delete_message with_event decode_delete wire_old old_values
  decode-delete_message rel (key_tuple old) hid known t =
      rw (read_u32-be rel_id _ hid, ◌>>=◌)
        (rw (known_relation _ known, ◌>>=◌)
          (rw (read_u8-cons b'K' _, ◌>>=◌) (rw (last_tuple rel.columns old t, ◌>>=◌))))
  decode-delete_message rel (full_tuple old) hid known t =
      rw (read_u32-be rel_id _ hid, ◌>>=◌)
        (rw (known_relation _ known, ◌>>=◌)
          (rw (read_u8-cons b'O' _, ◌>>=◌) (rw (last_tuple rel.columns old t, ◌>>=◌))))
