-- ===== src/Core/Storage/Wal/ReadBack.antt =====
-- What a log's segments hold, one behind the other.
use nendi.Common.{
  ℕ, ◌+◌, ◌^◌, ◌<◌, ◌≤◌, ◌≡◌, ◌⊎◌, inl, inr, refl, sym, ap, ◌∙◌, arith, Bool, true, false,
  Bool-cases, Option, none, some, List, [], ◌∷◌, ◌++◌, append_assoc, append-nil, Bytes, Text,
  length, All, leb,
}
use nendi.Common.Cursor.{ok}
use mathlib.Core.Path.{subst}
use nendi.Common.Effects.{bind_done, ◌>>=◌}
use nendi.Core.Storage.Wal.{
  FileSystem, WalWriter, new, segment_name, rotate, must_rotate, append_now, append,
}
use nendi.Core.Storage.Wal.Format.{
  Logged, IsRecord, encode_all, read_records, read_records-encode_all,
}
use nendi.Core.Storage.Wal.Segments.{
  log, append_all, IsLog, IsOpen, rotate-IsOpen, append_now-IsLog,
}

module _ (fs : FileSystem) where
  append-IsLog :
      (recs : List Logged) (r : Logged) (p p' : WalWriter × fs.Fs)
      → IsLog fs recs p
      → (p.0).segment + 1 < 2 ^ 64
      → append fs r.0 r.1 p ≡ (ok tt, p')
      → IsLog fs (recs ++ (r ∷ [])) p' × ((p'.0).segment ≤ (p.0).segment + 1)
  unfolding append must_rotate
  append-IsLog recs r p p' v small h = elim (Bool-cases (must_rotate p.0)) [
    | inl rotates ↦
        let h' : (rotate fs >>= λ _. append_now fs r.0 r.1) p ≡ (ok tt, p') = rw rotates at h in
        let (_, mid, first, second) = bind_done (rotate fs) (λ _. append_now fs r.0 r.1) p h' in
        let (opened, seg) = rotate-IsOpen fs recs p mid v small first in
        let (v', seg') = append_now-IsLog fs recs r mid p' opened (omega (arith, seg)) second in
        (v', omega (arith, seg, seg'))
    | inr stays ↦ by_current v.current stays (rw stays at h)
  ]
    where
      by_current :
          (((p.0).current_file ≡ none) × ((p.0).segment ≡ 0))
            ⊎ (((p.0).current_file ≡ some (segment_name (p.0).segment))
                × (0 < (p.0).segment)
                × ((c : Bytes) × (fs.content (segment_name (p.0).segment) p.1 ≡ some c)))
          → must_rotate p.0 ≡ false
          → append_now fs r.0 r.1 p ≡ (ok tt, p')
          → IsLog fs (recs ++ (r ∷ [])) p' × ((p'.0).segment ≤ (p.0).segment + 1)
      by_current (inl (closed, _)) stays ran =
          let rotates : must_rotate p.0 ≡ true =
            ap
              (λ (f : Option Text). elim f as (λ _. Bool) [
                | none ↦ true
                | some _ ↦ leb (p.0).max_segment_bytes (p.0).segment_bytes
              ])
              closed in
          let clash : true ≡ false = sym rotates ∙ stays in absurd (cc)
      by_current (inr (named, numbered, holds)) stays ran =
          let opened : IsOpen fs recs p = record {
            total = v.total;
            named = named;
            numbered = numbered;
            holds = holds;
            fresh = v.fresh;
          } in
          let (v', seg) = append_now-IsLog fs recs r p p' opened (omega arith) ran in
          (v', omega (arith, seg))

  append_all-IsLog :
      (rs recs : List Logged) (p p' : WalWriter × fs.Fs)
      → IsLog fs recs p
      → (p.0).segment + length rs < 2 ^ 64
      → append_all fs rs p ≡ (ok tt, p')
      → IsLog fs (recs ++ rs) p'
  unfolding append_all
  append_all-IsLog [] recs p p' v small h =
      let same : p ≡ p' = ap (λ r. r.1) h in
      subst (IsLog fs (recs ++ [])) same (subst (λ l. IsLog fs l p) (sym (append-nil recs)) v)
  append_all-IsLog (r ∷ rs) recs p p' v small h =
      let (_, mid, first, rest) = bind_done (append fs r.0 r.1) (λ _. append_all fs rs) p h in
      let (v1, seg) = append-IsLog recs r p mid v (omega arith) first in
      subst (λ l. IsLog fs l p') (append_assoc recs (r ∷ []) rs)
        (append_all-IsLog rs (recs ++ (r ∷ [])) mid p' v1 (omega (arith, seg)) rest)

  -- Records, fewer than 2 ^ 64, whose LSNs are `u64`s and whose lengths fit the length field, are
  -- appended by a new writer to a directory without a segment, and no call fails. Then the segments
  -- from the first to the current one, one behind the other, are in the documented format, and hold
  -- these records, in order, and nothing else, whatever the maximal size of a segment is.
  pub read_records-append_all :
      (rs : List Logged) (max_segment_bytes : ℕ) (d : fs.Fs) (p : WalWriter × fs.Fs)
      → All IsRecord rs
      → length rs < 2 ^ 64
      → ((k : ℕ) → k < 2 ^ 64 → fs.content (segment_name k) d ≡ none)
      → append_all fs rs (new max_segment_bytes, d) ≡ (ok tt, p)
      → read_records (length rs) (log fs p.1 (p.0).segment) ≡ ok (rs, [])
  unfolding new log
  read_records-append_all rs max_segment_bytes d p fit few none_yet ran =
      let started : IsLog fs [] (new max_segment_bytes, d) = record {
        total = unfold encode_all in refl;
        current = inl (refl, refl);
        fresh = λ k _ small. none_yet k small;
      } in
      let v = append_all-IsLog rs [] (new max_segment_bytes, d) p started (omega arith) ran in
      ap (read_records (length rs)) v.total ∙ read_records-encode_all rs fit
