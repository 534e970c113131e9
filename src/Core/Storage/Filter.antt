-- ===== src/Core/Storage/Filter.antt =====
-- core/src/storage/rocks/filter.rs: which stored events a replay returns.
pub mod Prefix
use nendi.Common.{
  ℕ, Bool, true, false, ◌&&◌, ◌||◌, Option, none, some, List, [], ◌∷◌, Text, Bytes, take, length,
  ltb, leb, if◌then◌else◌, text_eq,
}
use nendi.Shared.Lsn.{Lsn, zero_lsn, max_lsn, from_be_bytes}
use nendi.Shared.Event.{ChangeEvent, qualified}

pub record ReadFilter : Type 0 where
  pub tables : Option (List Text)
  pub min_lsn : Lsn
  pub max_lsn : Lsn

abbrev pub new : ReadFilter
new = record { tables = none; min_lsn = zero_lsn; max_lsn = max_lsn }

unfoldable pub with_tables : List Text → ReadFilter → ReadFilter
with_tables tables f = record f { tables = some tables }

unfoldable pub with_lsn_range : Lsn → Lsn → ReadFilter → ReadFilter
with_lsn_range min max f = record f { min_lsn = min; max_lsn = max }

-- `iter().any(|t| t == name)`.
unfoldable pub names_table : Text → List Text → Bool
names_table name [] = false
names_table name (t ∷ ts) = text_eq t name || names_table name ts

unfoldable pub accept : ChangeEvent → ReadFilter → Bool
accept event f =
    if ltb event.lsn f.min_lsn || ltb f.max_lsn event.lsn
    then false
    else elim f.tables [ none ↦ true | some tables ↦ names_table (qualified event.table) tables ]

unfoldable pub key_might_match : Bytes → ReadFilter → Bool
key_might_match key f =
    if ltb (length key) 8
    then false
    else (let lsn = from_be_bytes (take 8 key) in leb f.min_lsn lsn && leb lsn f.max_lsn)
