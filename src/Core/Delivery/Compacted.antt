-- ===== src/Core/Delivery/Compacted.antt =====
-- Compactions with the filter of core/src/storage/rocks/compaction.rs, between a consumer's commits
-- and its reads.
use nendi.Common.{
  ◌<◌, ℕ, ◌≡◌, refl, sym, ap, ◌∙◌, true, arith, some, List, [], ◌∷◌, Text, All, lex_ltb, map,
}
use nendi.Shared.Lsn.{Lsn, max_lsn, saturating_add, to_be_bytes}
use nendi.Shared.Event.{ChangeEvent}
use nendi.Shared.Proto.RoundTrip.{IsWireEvent}
use nendi.Core.Offset.{OffsetRegistry, get, min_offset, resume_lsn}
use nendi.Core.Offset.Commits.{min_offset-le}
use nendi.Core.Storage.Keys.{make_key}
use nendi.Core.Storage.Gc.{EventGcFilter, discard, new_filter, filter}
use nendi.Core.Storage.Gc.Safety.{filter-make_key}
use nendi.Core.Storage.Store.{Entry, from_key, KeyValueStore, entry, read_from}
use nendi.Core.Storage.Store.Entries.{IsEntry}
use nendi.Core.Storage.Store.ReadBack.{lex-make_key_start}

-- What a compaction may leave: RocksDB asks the filter about some of the entries, and removes those
-- for which the answer is `discard`.
pub data Compaction (f : EventGcFilter) : List Entry → List Entry → Type 0 where
  done : Compaction f [] []
  kept : {e : Entry} {m m' : List Entry} → Compaction f m m' → Compaction f (e ∷ m) (e ∷ m')
  removed :
      {e : Entry} {m m' : List Entry}
      → filter f e.0 ≡ discard
      → Compaction f m m'
      → Compaction f (e ∷ m) m'

-- What the filter discards under the watermark lies before every position that a consumer resumes at.
discarded_before_resume :
    (r : OffsetRegistry) (c : Text) (o : Lsn) (e : ChangeEvent)
    → get c r ≡ some o
    → o < max_lsn
    → IsWireEvent e
    → filter (new_filter (min_offset r)) (make_key e) ≡ discard
    → lex_ltb (make_key e) (to_be_bytes (resume_lsn c r)) ≡ true
unfolding resume_lsn saturating_add
discarded_before_resume r c o e committed ho w gone =
    let low = min_offset-le c r committed in
    let asked = filter-make_key (min_offset r) e (omega arith) w.lsn in
    let below : e.lsn < min_offset r = ground (arith, asked, gone) in
    let resume : resume_lsn c r ≡ saturating_add o 1 = rw (committed, resume_lsn) refl in
    rw resume (lex-make_key_start e (saturating_add o 1) w (ground arith) ∙ ground arith)

from_key-compacted :
    (r : OffsetRegistry) (c : Text) (o : Lsn) {m m' : List Entry}
    → get c r ≡ some o
    → o < max_lsn
    → Compaction (new_filter (min_offset r)) m m'
    → All IsEntry m
    → from_key (to_be_bytes (resume_lsn c r)) m' ≡ from_key (to_be_bytes (resume_lsn c r)) m
unfolding from_key
from_key-compacted r c o committed ho done es = refl
from_key-compacted r c o committed ho (kept {e = x} rest) (_, es) =
    rw (from_key-compacted r c o committed ho rest es) refl
from_key-compacted r c o committed ho (removed {e = x} gone rest) ((e, w, is), es) =
    let key : x.0 ≡ make_key e = ap (λ p. p.0) is ∙ unfold entry in refl in
    let before = discarded_before_resume r c o e committed ho w (rw key at gone) in
    rw (key, before) (from_key-compacted r c o committed ho rest es)

-- A column family holds entries of events whose fields are in range and fit their length fields, and
-- a compaction removes entries from it with the watermark of the offset registry. A consumer that has
-- committed an offset below `Lsn::MAX` reads the same from its resume position before and after, with
-- the same limit, if neither read meets an I/O error.
pub read_from-compacted :
    (kv : KeyValueStore) (r : OffsetRegistry) (c : Text) (o : Lsn) (db db' : kv.Db)
    (found found' : List Entry) (size_of_event limit : ℕ)
    → get c r ≡ some o
    → o < max_lsn
    → All IsEntry (kv.contents db)
    → Compaction (new_filter (min_offset r)) (kv.contents db) (kv.contents db')
    → kv.iterator (to_be_bytes (resume_lsn c r)) db ≡ map some found
    → kv.iterator (to_be_bytes (resume_lsn c r)) db' ≡ map some found'
    → read_from kv size_of_event (resume_lsn c r) limit db'
      ≡ read_from kv size_of_event (resume_lsn c r) limit db
unfolding read_from
read_from-compacted kv r c o db db' found found' size_of_event limit committed ho es compacted
      before after =
    let start = to_be_bytes (resume_lsn c r) in
    let same : found' ≡ found =
      kv.iterator_items start db' found' after
      ∙ from_key-compacted r c o committed ho compacted es
      ∙ sym (kv.iterator_items start db found before) in
    rw (after, before, same) refl
