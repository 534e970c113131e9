-- ===== src/Pgsql/Stream/Transcript.antt =====
-- What a stream makes of PostgreSQL's descriptions of tables and of their row changes.
use nendi.Common.{
  ℕ, ◌<◌, ◌^◌, ◌≡◌, Option, none, some, List, [], ◌∷◌, Bytes, lookup, insert, nat_eq,
}
use nendi.Common.Options.{map_option}
use nendi.Common.Cursor.{ok}
use nendi.Shared.Lsn.{Lsn}
use nendi.Shared.Event.{OpType, ChangeEvent}
use nendi.Pgsql.Decoding.{RelationInfo, Relations, event_of}
use nendi.Pgsql.Decoding.Wire.{
  WireValue, OldTuple, old_values, row_of, old_row, IsTuple, IsOldTuple, IsRelation,
  relation_message, insert_message, update_message, delete_message,
}
use nendi.Pgsql.Stream.Progress.{Answer}

-- A message of the server, with the id of its table: a description with the type modifiers of the
-- columns, or rows. An update may come with the old row or its key, and a delete comes with one.
pub data ServerMessage : Type 0 where
  described : ℕ → RelationInfo → List ℕ → ServerMessage
  inserted : ℕ → List WireValue → ServerMessage
  updated : ℕ → Option OldTuple → List WireValue → ServerMessage
  deleted : ℕ → OldTuple → ServerMessage

unfoldable pub bytes_of : ServerMessage → Bytes
bytes_of (described rel_id rel modifiers) = relation_message rel_id rel modifiers
bytes_of (inserted rel_id row) = insert_message rel_id row
bytes_of (updated rel_id old row) = update_message rel_id old row
bytes_of (deleted rel_id old) = delete_message rel_id old

-- The tables that are described after a message.
unfoldable pub described_after : Relations → ServerMessage → Relations
described_after rs (described rel_id rel modifiers) = insert rel_id rel rs
described_after rs (inserted rel_id row) = rs
described_after rs (updated rel_id old row) = rs
described_after rs (deleted rel_id old) = rs

-- A row change is of a table that is described, and its rows are of that table.
pub record IsChange (rs : Relations) (rel_id : ℕ) (IsRow : RelationInfo → Type 0) : Type 0 where
  pub rel : RelationInfo
  pub small : rel_id < 2 ^ 32
  pub known : lookup rel_id rs ≡ some rel
  pub row : IsRow rel

abbrev pub IsSent : Relations → ServerMessage → Type 0
IsSent rs (described rel_id rel modifiers) = (rel_id < 2 ^ 32) × IsRelation rel modifiers
IsSent rs (inserted rel_id row) = IsChange rs rel_id (λ rel. IsTuple rel.columns row)
IsSent rs (updated rel_id old row) =
    IsChange rs rel_id (λ rel. IsOldTuple rel.columns old × IsTuple rel.columns row)
IsSent rs (deleted rel_id old) = IsChange rs rel_id (λ rel. IsTuple rel.columns (old_values old))

abbrev pub AllSent : Relations → List (Lsn × ServerMessage) → Type 0
AllSent rs [] = Unit
AllSent rs ((lsn, m) ∷ ms) = IsSent rs m × AllSent (described_after rs m) ms

unfoldable pub on_wire : Lsn × ServerMessage → Lsn × Bytes
on_wire (lsn, m) = (lsn, bytes_of m)

module _ (compute_fingerprint : RelationInfo → ℕ) where
  -- The event of a change, for the table that its id stands for.
  change_of : Relations → ℕ → (RelationInfo → ChangeEvent) → Option ChangeEvent
  change_of rs rel_id event = map_option event (lookup rel_id rs)

  unfoldable pub told : Relations → Lsn → ServerMessage → Option ChangeEvent
  unfolding change_of
  told rs lsn (described rel_id rel modifiers) = none
  told rs lsn (inserted rel_id row) = change_of rs rel_id (λ rel.
      event_of compute_fingerprint lsn OpType.insert rel
        (some (record { columns = row_of rel.columns row })) none)
  told rs lsn (updated rel_id old row) = change_of rs rel_id (λ rel.
      event_of compute_fingerprint lsn OpType.update rel
        (some (record { columns = row_of rel.columns row })) (old_row rel.columns old))
  told rs lsn (deleted rel_id old) = change_of rs rel_id (λ rel.
      event_of compute_fingerprint lsn OpType.delete rel none
        (some (record { columns = row_of rel.columns (old_values old) })))

  -- What the messages mean, one after the other.
  unfoldable pub all_told : Relations → List (Lsn × ServerMessage) → List Answer
  all_told rs [] = []
  all_told rs ((lsn, m) ∷ ms) = ok (told rs lsn m) ∷ all_told (described_after rs m) ms
