-- ===== src/Pgsql/Ddl.antt =====
-- services/pgsql/src/trigger/ddl/parser.rs and handler.rs: messages about schema changes.
pub mod Handled
pub mod Parsed
mod Tests
use nendi.Common.{
  ℕ, ◌+◌, Bool, true, false, ◌||◌, Option, none, some, List, [], ◌∷◌, ◌++◌, Text, codes, split_once,
  text_eq, if◌then◌else◌,
}
use nendi.Common.Whitespace.{find, str_from, first_word, trim_end_matches}
use nendi.Common.Cursor.{Outcome, ok, err, panic}
use nendi.Shared.Lsn.{Lsn}
use nendi.Pgsql.DdlBuffer
use nendi.Pgsql.DdlBuffer.{
  DdlKind, alter_table, drop_table, rename_table, add_column, drop_column, alter_column, other,
  DdlChange, DdlBuffer,
}

pub record ParsedDdl : Type 0 where
  pub table : Text
  pub kind : DdlKind
  pub statement : Text

-- The message that is no DDL message.
pub data DdlError : Type 0 where
  invalid_format : Text → DdlError

-- `to_uppercase` is that of `str`, by the tables of Unicode.
module _ (to_uppercase : Text → Text) where
  -- What stands behind a found keyword of `n` bytes. The position is one of the upper-cased text.
  unfoldable pub word_behind : Option ℕ → ℕ → Text → Outcome DdlError (Option Text)
  word_behind none n stmt = ok none
  word_behind (some pos) n stmt = elim (str_from (pos + n) stmt) [
    | none ↦ panic
    | some after ↦ elim (first_word after) [
      | none ↦ ok none
      | some name ↦ ok (some (trim_end_matches b';' name))
    ]
  ]

  unfoldable pub extract_new_name : Text → Outcome DdlError (Option Text)
  extract_new_name stmt = word_behind (find (to_uppercase stmt) (codes "RENAME TO ")) 10 stmt

  unfoldable pub extract_column_name : Text → Outcome DdlError (Option Text)
  extract_column_name stmt = word_behind (find (to_uppercase stmt) (codes "COLUMN ")) 7 stmt

  -- `unwrap_or_default`.
  unfoldable pub or_default : Option Text → Text
  or_default none = []
  or_default (some t) = t

  unfoldable pub with_name :
      (Text → DdlKind) → Outcome DdlError (Option Text) → Outcome DdlError DdlKind
  with_name kind (ok o) = ok (kind (or_default o))
  with_name kind (err e) = err e
  with_name kind panic = panic

  unfoldable pub kind_of : Text → Text → Outcome DdlError DdlKind
  kind_of tag stmt =
      if text_eq tag (codes "ALTER_TABLE")
      then ok alter_table
      else if text_eq tag (codes "DROP_TABLE")
      then ok drop_table
      else if text_eq tag (codes "RENAME_TABLE")
      then with_name rename_table (extract_new_name stmt)
      else if text_eq tag (codes "ADD_COLUMN")
      then with_name add_column (extract_column_name stmt)
      else if text_eq tag (codes "DROP_COLUMN")
      then with_name drop_column (extract_column_name stmt)
      else if text_eq tag (codes "ALTER_COLUMN")
      then with_name alter_column (extract_column_name stmt)
      else ok other

  unfoldable pub parsed : Text → Text → Outcome DdlError DdlKind → Outcome DdlError ParsedDdl
  parsed table stmt (ok kind) = ok (record { table = table; kind = kind; statement = stmt })
  parsed table stmt (err e) = err e
  parsed table stmt panic = panic

  -- `splitn(3, '|')` and the test that it gives three parts.
  unfoldable pub parse_ddl_message : Text → Outcome DdlError ParsedDdl
  parse_ddl_message content = elim (split_once b'|' content) [
    | none ↦ err (invalid_format content)
    | some (tag, rest) ↦ elim (split_once b'|' rest) [
      | none ↦ err (invalid_format content)
      | some (table, stmt) ↦ parsed table stmt (kind_of tag stmt)
    ]
  ]

  pub record DdlHandler : Type 0 where
    pub buffer : DdlBuffer
    pub monitored_tables : List Text

  unfoldable pub new : List Text → DdlHandler
  new monitored_tables = record { buffer = DdlBuffer.new; monitored_tables = monitored_tables }

  unfoldable pub is_monitored : Text → List Text → Bool
  is_monitored table [] = false
  is_monitored table (t ∷ ts) = text_eq t table || is_monitored table ts

  -- What follows the parser.
  unfoldable pub handle_parsed :
      Lsn → Outcome DdlError ParsedDdl → DdlHandler → Outcome DdlError (Unit {0}) × DdlHandler
  handle_parsed lsn (err e) h = (err e, h)
  handle_parsed lsn panic h = (panic, h)
  handle_parsed lsn (ok p) h =
      if is_monitored p.table h.monitored_tables
      then (
        ok tt,
        record h {
          buffer =
              DdlBuffer.push
                (record { lsn = lsn; table = p.table; kind = p.kind; statement = p.statement })
                h.buffer;
        },
      )
      else (ok tt, h)

  unfoldable pub handle_ddl_message :
      Lsn → Text → DdlHandler → Outcome DdlError (Unit {0}) × DdlHandler
  handle_ddl_message lsn content h = handle_parsed lsn (parse_ddl_message content) h

  unfoldable pub drain_up_to : Lsn → DdlHandler → List DdlChange × DdlHandler
  drain_up_to lsn h =
      let (ready, buffer) = DdlBuffer.drain_up_to lsn h.buffer in
      (ready, record h { buffer = buffer })

  unfoldable pub set_monitored_tables : List Text → DdlHandler → DdlHandler
  set_monitored_tables tables h = record h { monitored_tables = tables }
