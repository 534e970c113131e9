-- ===== src/Core/Storage/Wal/Steps.antt =====
-- The steps of `append`, where no call fails.
use nendi.Common.{
  ◌+◌, ◌^◌, ◌<◌, ◌≡◌, ◌≢◌, refl, sym, ap, ◌∙◌, arith, Bool, true, false, some, ◌++◌, append_assoc,
  Bytes, Text, length, be, add_u64,
}
use nendi.Common.Cursor.{Outcome, ok, err, panic}
use nendi.Common.Effects.{◌>>=◌}
use nendi.Shared.Lsn.{Lsn, to_be_bytes}
use nendi.Core.Storage.Wal.{
  or_empty, FileSystem, IoError, done, WalWriter, segment_name, Wal, on_file, change, rotate,
  record_len, write_record,
}
use nendi.Core.Storage.Wal.Format.{encode_record}

module _ (fs : FileSystem) where
  -- A step on a file that has not failed.
  on_file_done :
      {B : Type 0} (call : fs.Fs → Bool × fs.Fs) (f : Unit {0} → Wal fs B) (p : WalWriter × fs.Fs)
      {b : B} {t : WalWriter × fs.Fs}
      → (on_file fs call >>= f) p ≡ (ok b, t)
      → ((call p.1).0 ≡ true) × (f tt (p.0, (call p.1).1) ≡ (ok b, t))
  on_file_done {B} call f p {b} {t} h = by_result (call p.1) h
    where
      by_result :
          (r : Bool × fs.Fs)
          → elim (done r.0) as (λ _. Outcome IoError B × (WalWriter × fs.Fs)) [
            | ok a ↦ f a (p.0, r.1)
            | err e ↦ (err e, (p.0, r.1))
            | panic ↦ (panic, (p.0, r.1))
          ]
            ≡ (ok b, t)
          → (r.0 ≡ true) × (f tt (p.0, r.1) ≡ (ok b, t))
      by_result (true, d) q = (refl, q)
      by_result (false, d) q = cc

  -- The three writes of a record, if none fails.
  pub written :
      (lsn : Lsn) (payload : Bytes) (n : Text) (c : Bytes) (p p' : WalWriter × fs.Fs)
      → fs.content n p.1 ≡ some c
      → write_record fs lsn payload n p ≡ (ok tt, p')
      → (fs.content n p'.1 ≡ some (c ++ encode_record (lsn, payload)))
        × ((m : Text) → m ≢ n → fs.content m p'.1 ≡ fs.content m p.1)
        × (p'.0 ≡ record (p.0) {
          segment_bytes = add_u64 (p.0).segment_bytes (4 + 8 + length payload);
          last_lsn = lsn;
        })
  unfolding write_record encode_record to_be_bytes
  written lsn payload n c p p' holds h =
      let note : WalWriter → WalWriter = λ w. record w {
        segment_bytes = add_u64 w.segment_bytes (4 + 8 + length payload);
        last_lsn = lsn;
      } in
      let last : Unit {0} → Wal fs (Unit {0}) = λ _. change fs note in
      let then3 : Unit {0} → Wal fs (Unit {0}) =
        λ _. on_file fs (fs.write_all n payload) >>= last in
      let then2 : Unit {0} → Wal fs (Unit {0}) =
        λ _. on_file fs (fs.write_all n (be 8 lsn)) >>= then3 in
      let (ok1, h1) = on_file_done (fs.write_all n (be 4 (record_len payload))) then2 p h in
      let d1 = (fs.write_all n (be 4 (record_len payload)) p.1).1 in
      let (ok2, h2) = on_file_done (fs.write_all n (be 8 lsn)) then3 (p.0, d1) h1 in
      let d2 = (fs.write_all n (be 8 lsn) d1).1 in
      let (ok3, h3) = on_file_done (fs.write_all n payload) last (p.0, d2) h2 in
      let d3 = (fs.write_all n payload d2).1 in
      let c1 = fs.write_appends n (be 4 (record_len payload)) c p.1 holds ok1 in
      let c2 = fs.write_appends n (be 8 lsn) (c ++ be 4 (record_len payload)) d1 c1 ok2 in
      let c3 =
        fs.write_appends n payload ((c ++ be 4 (record_len payload)) ++ be 8 lsn) d2 c2 ok3 in
      let writer : note p.0 ≡ p'.0 = ap (λ r. (r.1).0) h3 in
      let disk : d3 ≡ p'.1 = ap (λ r. (r.1).1) h3 in
      (
        ap (fs.content n) (sym disk)
            ∙ c3
            ∙ ap some (
                append_assoc (c ++ be 4 (record_len payload)) (be 8 lsn) payload
                ∙ append_assoc c (be 4 (record_len payload)) (be 8 lsn ++ payload)),
        λ m ne.
            ap (fs.content m) (sym disk)
            ∙ fs.write_keeps n m payload d2 ne
            ∙ fs.write_keeps n m (be 8 lsn) d1 ne
            ∙ fs.write_keeps n m (be 4 (record_len payload)) p.1 ne,
        sym writer,
      )

  -- A rotation that has not failed, before the last segment number.
  pub rotated :
      (p p' : WalWriter × fs.Fs)
      → (p.0).segment + 1 < 2 ^ 64
      → rotate fs p ≡ (ok tt, p')
      → (fs.content (segment_name ((p.0).segment + 1)) p'.1
          ≡ some (or_empty (fs.content (segment_name ((p.0).segment + 1)) p.1)))
        × ((m : Text) → m ≢ segment_name ((p.0).segment + 1) → fs.content m p'.1 ≡ fs.content m p.1)
        × (p'.0 ≡ record (p.0) {
          segment = (p.0).segment + 1;
          current_file = some (segment_name ((p.0).segment + 1));
          segment_bytes = 0;
        })
  unfolding rotate
  rotated p p' small h =
      let next : add_u64 (p.0).segment 1 ≡ (p.0).segment + 1 = omega arith in
      let name = segment_name ((p.0).segment + 1) in
      let w1 : WalWriter = record (p.0) { segment = (p.0).segment + 1 } in
      let set_file : WalWriter → WalWriter =
        λ w. record w { current_file = some name; segment_bytes = 0 } in
      let (opened, h1) =
        on_file_done (fs.open_append name) (λ _. change fs set_file) (w1, p.1) (rw next at h) in
      let writer : set_file w1 ≡ p'.0 = ap (λ r. (r.1).0) h1 in
      let disk : (fs.open_append name p.1).1 ≡ p'.1 = ap (λ r. (r.1).1) h1 in
      (
        ap (fs.content name) (sym disk) ∙ fs.open_creates name p.1 opened,
        λ m ne. ap (fs.content m) (sym disk) ∙ fs.open_keeps name m p.1 ne,
        sym writer,
      )
