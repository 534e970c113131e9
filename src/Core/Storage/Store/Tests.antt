-- ===== src/Core/Storage/Store/Tests.antt =====
-- A store of two batches at concrete events.
use nendi.Common.{◌≤◌, ◌≡◌, ◌↔◌, refl, arith, max, List, [], ◌∷◌, some, map, take}
use nendi.Common.Cursor.{ok}
use nendi.Shared.Lsn.{to_be_bytes}
use nendi.Shared.Event.{ChangeEvent}
use nendi.Shared.Event.Samples.{order_at}
use nendi.Shared.Proto.Samples.{order-IsWireEvent}
use nendi.Core.Storage.Keys.{make_key}
use nendi.Core.Storage.Store.{Among, IsSorted, Entry, entry, from_key, write_batch, read_from}
use nendi.Core.Storage.Store.Entries.{latest}
use nendi.Core.Storage.Store.ReadBack.{all_events, write_all, read_from-write_all}
use nendi.Core.Storage.Store.SortedStore.{sorted_store, put_all, put_all-IsSorted}

abbrev batches : List (List ChangeEvent)
batches = (order_at 30 1 ∷ (order_at 10 1 ∷ [])) ∷ ((order_at 20 1 ∷ []) ∷ [])

abbrev empty : sorted_store.Db
empty = ([], tt)

abbrev first_puts : List Entry
first_puts = map entry (order_at 30 1 ∷ (order_at 10 1 ∷ []))

abbrev second_puts : List Entry
second_puts = map entry (order_at 20 1 ∷ [])

abbrev written : sorted_store.Db
written = (
  put_all second_puts (put_all first_puts []),
  put_all-IsSorted second_puts (put_all first_puts []) (put_all-IsSorted first_puts [] tt),
)

read_from-write_all_example :
    (es : List ChangeEvent) × (read_from sorted_store 200 20 1 written ≡ ok (take (max 1 1) es))
    × IsSorted (map entry es)
    × ((e : ChangeEvent)
        → Among e es ↔ ((latest (make_key e) (all_events batches) ≡ some e) × (20 ≤ e.lsn)))
unfolding all_events write_all write_batch
read_from-write_all_example =
    read_from-write_all sorted_store batches empty written (from_key (to_be_bytes 20) written.0) 20
      200 1 (omega arith) refl refl
      (
        order-IsWireEvent 30 (omega arith),
        (order-IsWireEvent 10 (omega arith), (order-IsWireEvent 20 (omega arith), tt)),
      )
      (omega arith) refl
