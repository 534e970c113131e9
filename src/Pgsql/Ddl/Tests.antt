-- ===== src/Pgsql/Ddl/Tests.antt =====
-- The handler on two messages.
use nendi.Common.{◌&&◌, [], ◌∷◌, Text, codes, leb, if◌then◌else◌, ◌-◌}
use nendi.Pgsql.DdlBuffer.{alter_table, add_column}
use nendi.Pgsql.Ddl.Handled.{DdlEvent}

-- `to_uppercase` on ASCII.
ascii_upper : Text → Text
ascii_upper [] = []
ascii_upper (c ∷ s) = (if leb b'a' c && leb c b'z' then c - 32 else c) ∷ ascii_upper s

abbrev added : DdlEvent
added = record {
  lsn = 30;
  tag = codes "ADD_COLUMN";
  table = codes "public.t";
  statement = codes "alter table t add column c text";
  kind = add_column (codes "c");
}

abbrev elsewhere : DdlEvent
elsewhere = record {
  lsn = 20;
  tag = codes "ALTER_TABLE";
  table = codes "public.u";
  statement = codes "alter table u rename a to b";
  kind = alter_table;
}
