-- ===== src/Core/Storage/Filter/Prefix.antt =====
-- The test on keys against the test on events.
use nendi.Common.{none, ◌≡◌, arith, true, ◌&&◌, leb}
use nendi.Shared.Lsn.{IsLsn}
use nendi.Shared.Lsn.Order.{from_be_bytes-to_be_bytes}
use nendi.Shared.Event.{ChangeEvent}
use nendi.Core.Storage.Keys.{make_key, take-make_key, length-make_key}
use nendi.Core.Storage.Filter.{ReadFilter, accept, key_might_match}

key_might_match-make_key :
    (e : ChangeEvent) (f : ReadFilter)
    → IsLsn e.lsn
    → key_might_match (make_key e) f ≡ (leb f.min_lsn e.lsn && leb e.lsn f.max_lsn)
unfolding key_might_match
key_might_match-make_key e f h =
    rw (length-make_key e, take-make_key e, from_be_bytes-to_be_bytes e.lsn h)

-- The test on keys passes every event that the filter accepts; and without a list of tables it
-- passes no other.
pub key_might_match_sound :
    (e : ChangeEvent) (f : ReadFilter)
    → IsLsn e.lsn
    → (accept e f ≡ true → key_might_match (make_key e) f ≡ true)
      × (f.tables ≡ none → key_might_match (make_key e) f ≡ accept e f)
unfolding accept
key_might_match_sound e f h = rw (key_might_match-make_key e f h) (ground arith)
