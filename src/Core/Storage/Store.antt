-- ===== src/Core/Storage/Store.antt =====
-- core/src/storage/rocks/tenant.rs: the events of a tenant in their column family.
pub mod Entries
pub mod ReadBack
pub mod SortedList
pub mod SortedStore
mod Tests
use nendi.Common.{
  ℕ, ◌≡◌, Bool, true, false, not, Option, none, some, List, [], ◌∷◌, ◌++◌, Bytes, length, leb,
  lex_ltb, text_eq, if◌then◌else◌, fits_capacity, map, ◌↔◌, ◌⊎◌, All,
}
use nendi.Common.Cursor.{Outcome, ok, err, panic}
use nendi.Shared.Lsn.{Lsn, to_be_bytes}
use nendi.Shared.Event.{ChangeEvent}
use nendi.Shared.Proto.{encode_event, decode_event}
use nendi.Core.Storage.Keys.{make_key}

abbrev pub Entry : Type 0
Entry = Bytes × Bytes

abbrev pub Among : {A : Type 0} → A → List A → Type 0
Among x [] = ⊥
Among x (y ∷ ys) = (y ≡ x) ⊎ Among x ys

-- Each key before all that follow.
abbrev pub IsSorted : List Entry → Type 0
IsSorted [] = Unit
IsSorted ((k, v) ∷ m) = All (λ e. lex_ltb k e.0 ≡ true) m × IsSorted m

-- The value that a list of puts leaves at a key, if they put one there.
unfoldable pub last_put : Bytes → List Entry → Option Bytes
last_put k [] = none
last_put k ((j, v) ∷ m) = elim (last_put k m) [
  | some w ↦ some w
  | none ↦ if text_eq j k then some v else none
]

unfoldable pub from_key : Bytes → List Entry → List Entry
from_key start [] = []
from_key start ((k, v) ∷ m) =
    let rest = from_key start m in if lex_ltb k start then rest else (k, v) ∷ rest

-- RocksDB, which is not part of this repository, as far as one column family goes, and what its
-- documentation says. A write is done as a whole or fails; an iterator gives the entries from a key
-- on, in the order of the keys, unless an item is an I/O error, `none`.
pub record KeyValueStore : Type 1 where
  pub Db : Type 0
  pub write : List Entry → Db → Option Db
  pub iterator : Bytes → Db → List (Option Entry)
  pub contents : Db → List Entry
  pub sorted : (db : Db) → IsSorted (contents db)
  pub contents-write :
      (puts : List Entry) (db db' : Db)
      → write puts db ≡ some db'
      → (k v : Bytes)
      → Among (k, v) (contents db')
        ↔ ((last_put k puts ≡ some v) ⊎ ((last_put k puts ≡ none) × Among (k, v) (contents db)))
  pub iterator_items :
      (start : Bytes) (db : Db) (items : List Entry)
      → iterator start db ≡ map some items
      → items ≡ from_key start (contents db)

unfoldable pub entry : ChangeEvent → Entry
entry e = (make_key e, encode_event e)

-- Why a read fails.
pub data ReadError : Type 0 where
  io : ReadError

-- The body of the loop behind a decoded event: `loop` is what is left of it.
unfoldable pub stop_at :
    ℕ
    → List ChangeEvent
    → (List ChangeEvent → Outcome ReadError (List ChangeEvent))
    → Outcome ReadError (List ChangeEvent)
stop_at limit events loop = if leb limit (length events) then ok events else loop events

-- The loop of `read_from`, with the events so far. A value that does not decode is skipped.
unfoldable pub read_loop :
    ℕ → List (Option Entry) → List ChangeEvent → Outcome ReadError (List ChangeEvent)
unfolding stop_at
read_loop limit [] events = ok events
read_loop limit (none ∷ items) events = err io
read_loop limit (some (_, value) ∷ items) events = elim (decode_event value) [
  | ok event ↦ stop_at limit (events ++ (event ∷ [])) (read_loop limit items)
  | err _ ↦ read_loop limit items events
  | panic ↦ panic
]

-- The column family exists once the store is open.
module _ (kv : KeyValueStore) where
  unfoldable pub write_batch : List ChangeEvent → kv.Db → Option kv.Db
  write_batch events db = kv.write (map entry events) db

  -- The vector of events is made with room for `limit` of them, which panics if their bytes overflow
  -- an `isize`. `size_of_event` is `size_of::<ChangeEvent>()`, which the compiler chooses.
  unfoldable pub read_from : ℕ → Lsn → ℕ → kv.Db → Outcome ReadError (List ChangeEvent)
  read_from size_of_event start_lsn limit db =
      if fits_capacity size_of_event limit
      then read_loop limit (kv.iterator (to_be_bytes start_lsn) db) []
      else panic
