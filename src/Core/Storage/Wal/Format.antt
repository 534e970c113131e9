-- ===== src/Core/Storage/Wal/Format.antt =====
-- The format of the log's records, and a reader of it, which the repository does not have.
use nendi.Common.{
  ℕ, zero, suc, ◌+◌, ◌-◌, ◌^◌, ◌<◌, ◌≡◌, refl, sym, arith, List, [], ◌∷◌, ◌++◌, append_assoc,
  append-nil, Bytes, length, All, be,
}
use nendi.Common.Cursor.{ok, Reader, pure, word, slice, word-be, slice-append, ◌>>=◌}
use nendi.Shared.Lsn.{Lsn}
use nendi.Core.Storage.Wal.{record_len}

abbrev pub Logged : Type 0
Logged = Lsn × Bytes

-- The format of the documentation: the length of what follows, the LSN, the payload.
unfoldable pub encode_record : Logged → Bytes
encode_record (lsn, payload) = be 4 (record_len payload) ++ (be 8 lsn ++ payload)

unfoldable pub encode_all : List Logged → Bytes
encode_all [] = []
encode_all (r ∷ rs) = encode_record r ++ encode_all rs

-- The records that bytes hold.
unfoldable pub read_record : Reader (Unit {0}) Logged
read_record = word 4 >>= λ len. word 8 >>= λ lsn. slice (len - 8) >>= λ payload. pure (lsn, payload)

unfoldable pub read_records : ℕ → Reader (Unit {0}) (List Logged)
read_records zero = pure []
read_records (suc n) = read_record >>= λ r. read_records n >>= λ rs. pure (r ∷ rs)

abbrev pub IsRecord : Logged → Type 0
IsRecord r = (r.0 < 2 ^ 64) × (8 + length r.1 < 2 ^ 32)

read_record-encode_record :
    (r : Logged) (rest : Bytes) → IsRecord r → read_record (encode_record r ++ rest) ≡ ok (r, rest)
unfolding read_record encode_record
read_record-encode_record (lsn, payload) rest (hl, hp) =
    let len : record_len payload ≡ 8 + length payload = omega arith in
    let left : record_len payload - 8 ≡ length payload = omega arith in
    rw (append_assoc (be 4 (record_len payload)) (be 8 lsn ++ payload) rest) (
      rw (word-be 4 (record_len payload) ((be 8 lsn ++ payload) ++ rest) (omega arith), ◌>>=◌)
        (rw (append_assoc (be 8 lsn) payload rest) (
          rw (word-be 8 lsn (payload ++ rest) (omega arith), ◌>>=◌)
            (rw (slice-append (record_len payload - 8) payload rest (sym left), ◌>>=◌) refl))))

pub read_records-encode_all :
    (rs : List Logged) → All IsRecord rs → read_records (length rs) (encode_all rs) ≡ ok (rs, [])
unfolding read_records encode_all
read_records-encode_all [] h = refl
read_records-encode_all (r ∷ rs) h =
    rw (read_record-encode_record r (encode_all rs) h.0, ◌>>=◌)
      (rw (read_records-encode_all rs h.1, ◌>>=◌) refl)

pub encode_all-snoc :
    (rs : List Logged) (r : Logged) → encode_all (rs ++ (r ∷ [])) ≡ encode_all rs ++ encode_record r
unfolding encode_all
encode_all-snoc [] r = append-nil (encode_record r)
encode_all-snoc (s ∷ rs) r =
    rw (encode_all-snoc rs r)
      (sym (append_assoc (encode_record s) (encode_all rs) (encode_record r)))
