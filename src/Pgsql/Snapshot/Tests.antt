-- ===== src/Pgsql/Snapshot/Tests.antt =====
-- A snapshot of two rows.
use nendi.Common.{Option, none, some, List, [], ◌∷◌, Text, codes, map}
use nendi.Shared.Event.{ChangeEvent}
use nendi.Core.Storage.Store.{entry}
use nendi.Core.Storage.Store.SortedStore.{sorted_store, put_all, put_all-IsSorted}
use nendi.Pgsql.Client.Script.{string, null, Cells}
use nendi.Pgsql.Snapshot.{SnapshotBuilder, row_event}

abbrev script : List (Option (List Cells))
script =
    some ((string (codes "id") ∷ (string (codes "text") ∷ [])) ∷ [])
    ∷ (some ((string (codes "a") ∷ []) ∷ ((null ∷ []) ∷ [])) ∷ [])

abbrev builder : SnapshotBuilder
builder = record { tables = codes "public.t" ∷ [] }

abbrev row : Option Text → ChangeEvent
row v =
    row_event 50 (codes "public") (codes "t")
      (record { name = codes "id"; type_oid = 0; value = v } ∷ [])

abbrev rows : List ChangeEvent
rows = row (some (codes "a")) ∷ (row none ∷ [])

abbrev written : sorted_store.Db
written = (put_all (map entry rows) [], put_all-IsSorted (map entry rows) [] tt)
