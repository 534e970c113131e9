-- ===== src/Pgsql/DdlBuffer.antt =====
-- services/pgsql/src/schema/buffer.rs: schema changes that wait for the row changes before them.
pub mod Drains
mod Tests
use nendi.Common.{
  ℕ, Text, Bool, true, false, not, List, [], ◌∷◌, ◌++◌, length, leb, ◌==◌, if◌then◌else◌,
}
use nendi.Shared.Lsn.{Lsn}

pub data DdlKind : Type 0 where
  alter_table drop_table : DdlKind
  rename_table : Text → DdlKind
  add_column drop_column alter_column : Text → DdlKind
  other : DdlKind

pub record DdlChange : Type 0 where
  pub lsn : Lsn
  pub table : Text
  pub kind : DdlKind
  pub statement : Text

pub record DdlBuffer : Type 0 where
  pub pending : List DdlChange

abbrev pub new : DdlBuffer
new = record { pending = [] }

unfoldable pub push : DdlChange → DdlBuffer → DdlBuffer
push change b = record { pending = b.pending ++ (change ∷ []) }

-- `Iterator::partition`.
unfoldable pub partition {ℓ} : {A : Type ℓ} → (A → Bool) → List A → List A × List A
partition p [] = ([], [])
partition p (x ∷ xs) =
    let rest = partition p xs in if p x then (x ∷ rest.0, rest.1) else (rest.0, x ∷ rest.1)

unfoldable pub drain_up_to : Lsn → DdlBuffer → List DdlChange × DdlBuffer
drain_up_to lsn b =
    let (ready, remaining) = partition (λ c. leb c.lsn lsn) b.pending in
    (ready, record { pending = remaining })

unfoldable pub len : DdlBuffer → ℕ
len b = length b.pending

unfoldable pub is_empty : DdlBuffer → Bool
is_empty b = length b.pending == 0
