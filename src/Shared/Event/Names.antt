-- ===== src/Shared/Event/Names.antt =====
-- Operation tags and qualified table names as text.
use nendi.Common.{
  ◌≡◌, ◌≢◌, refl, sym, arith, some, All, Text, split_once-append, split_once_parts, split_once,
  Option-cases, inl, inr, text_eq,
}
use nendi.Shared.Event.{
  OpType, insert, update, delete, truncate, as_str, from_str_tag, TableId, qualified,
  from_qualified,
}

-- The tag that an operation prints as is parsed back to that operation.
pub from_str_tag-as_str : (op : OpType) → from_str_tag (as_str op) ≡ some op
unfolding from_str_tag as_str text_eq
from_str_tag-as_str insert = refl
from_str_tag-as_str update = refl
from_str_tag-as_str delete = refl
from_str_tag-as_str truncate = refl

-- A qualified name is parsed back to its table, if the schema's name has no dot.
pub from_qualified-qualified :
    (t : TableId) → All (λ c. c ≢ b'.') t.schema → from_qualified (qualified t) ≡ some t
unfolding from_qualified qualified
from_qualified-qualified t h = rw (split_once-append b'.' t.schema t.table h)

-- What a qualified name is parsed to prints as that name, and its schema has no dot.
pub qualified-from_qualified :
    (s : Text) {t : TableId}
    → from_qualified s ≡ some t
    → (qualified t ≡ s) × All (λ c. c ≢ b'.') t.schema
unfolding from_qualified qualified
qualified-from_qualified s {t} h = elim (Option-cases (split_once b'.' s)) [
  | inl e ↦ ground arith
  | inr ((a, b), e) ↦
      let parts : some (record { schema = a; table = b }) ≡ some t = rw e at h in
      let same : record { schema = a; table = b } ≡ t = cc in
      let (whole, plain) = split_once_parts b'.' s a b e in rw (← same) (sym whole, plain)
]
