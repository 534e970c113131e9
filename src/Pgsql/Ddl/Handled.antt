-- ===== src/Pgsql/Ddl/Handled.antt =====
-- From messages to drained changes: the handler over the buffer.
use nendi.Common.{◌≡◌, List, [], ◌∷◌, Text}
use nendi.Common.Cursor.{ok}
use nendi.Shared.Lsn.{Lsn}
use nendi.Pgsql.DdlBuffer
use nendi.Pgsql.DdlBuffer.{DdlKind, DdlChange, DdlBuffer, partition}
use nendi.Pgsql.Ddl.{kind_of, DdlHandler, handle_ddl_message}
use nendi.Pgsql.Ddl.Parsed.{LacksBar, print}

-- What happened in the database.
pub record DdlEvent : Type 0 where
  pub lsn : Lsn
  pub tag : Text
  pub table : Text
  pub statement : Text
  pub kind : DdlKind

unfoldable pub change_of : DdlEvent → DdlChange
change_of e = record { lsn = e.lsn; table = e.table; kind = e.kind; statement = e.statement }

module _ (up : Text → Text) where
  -- The message can be cut at its bars, and its kind can be told.
  pub record IsMessage (e : DdlEvent) : Type 0 where
    pub tag : LacksBar e.tag
    pub table : LacksBar e.table
    pub kind : kind_of up e.tag e.statement ≡ ok e.kind

  -- The handler after one message each; a failed one is reported and the next one taken.
  unfoldable pub handle_all : List DdlEvent → DdlHandler up → DdlHandler up
  handle_all [] h = h
  handle_all (e ∷ es) h =
      handle_all es (handle_ddl_message up e.lsn (print e.tag e.table e.statement) h).1
