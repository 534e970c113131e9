-- ===== src/Core/Storage/Wal/Tests.antt =====
-- A log of two segments.
use nendi.Common.{
  Bytes, none, some, ℕ, ◌^◌, ◌<◌, ◌≡◌, refl, arith, List, [], ◌∷◌, codes, lookup, insert, text_eq,
  decimal, be, text_eq_instance,
}
use nendi.Common.Cursor.{ok}
use nendi.Shared.Lsn.{to_be_bytes}
use nendi.Core.Storage.Wal.{
  new, WalWriter, segment_name, padded, zeros, rotate, write_record, must_rotate, append_now,
  append,
}
use nendi.Core.Storage.Wal.Format.{Logged, read_records, encode_record}
use nendi.Core.Storage.Wal.Segments.{log, append_all}
use nendi.Core.Storage.Wal.ReadBack.{read_records-append_all}
use nendi.Core.Storage.Wal.Directory.{Files, add_to, directory}

abbrev two : List Logged
two = (7, codes "abc") ∷ ((9, codes "de") ∷ [])

abbrev ended : WalWriter × Files
ended = (
  record {
    current_file = some (codes "wal_00000002.log");
    segment = 2;
    segment_bytes = 14;
    max_segment_bytes = 10;
    last_lsn = 9;
  },
  (codes "wal_00000001.log", encode_record (7, codes "abc"))
      ∷ ((codes "wal_00000002.log", encode_record (9, codes "de")) ∷ []),
)

runs : append_all directory two (new 10, []) ≡ (ok tt, ended)
unfolding append_all append append_now write_record must_rotate rotate new segment_name padded zeros
    decimal be to_be_bytes add_to lookup insert text_eq encode_record
runs = refl

no_files : (k : ℕ) → k < 2 ^ 64 → lookup {V = Bytes} (segment_name k) [] ≡ none
unfolding lookup
no_files k small = refl

read_records-append_all_example : read_records 2 (log directory ended.1 2) ≡ ok (two, [])
read_records-append_all_example =
    read_records-append_all directory two 10 [] ended (omega arith) (omega arith) no_files runs
