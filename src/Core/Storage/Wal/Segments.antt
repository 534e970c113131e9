-- ===== src/Core/Storage/Wal/Segments.antt =====
-- The segments' contents through a rotation and an append.
use nendi.Common.{
  ℕ, zero, suc, ◌+◌, ◌-◌, ◌^◌, ◌<◌, ◌≤◌, ◌≡◌, ◌≢◌, ◌⊎◌, inr, refl, sym, ap, ◌∙◌, arith, none, some,
  List, [], ◌∷◌, ◌++◌, append_assoc, append-nil, Bytes, Text,
}
use nendi.Common.Cursor.{ok}
use nendi.Common.Effects.{◌>>=◌, or_panic}
use nendi.Core.Storage.Wal.{
  or_empty, FileSystem, WalWriter, segment_name, Wal, rotate, write_record, append_now, append,
}
use nendi.Core.Storage.Wal.Format.{Logged, encode_record, encode_all, encode_all-snoc}
use nendi.Core.Storage.Wal.Names.{segment_name_injective}
use nendi.Core.Storage.Wal.Steps.{written, rotated}

module _ (fs : FileSystem) where
  -- What the segments from 1 to `n` hold.
  unfoldable pub log : fs.Fs → ℕ → Bytes
  log d zero = []
  log d (suc n) = log d n ++ or_empty (fs.content (segment_name (suc n)) d)

  log_same :
      (d d' : fs.Fs) (n : ℕ)
      → ((k : ℕ) → k ≤ n → fs.content (segment_name k) d' ≡ fs.content (segment_name k) d)
      → log d' n ≡ log d n
  unfolding log
  log_same d d' zero h = refl
  log_same d d' (suc n) h =
      rw (h (suc n) (omega arith), log_same d d' n (λ k le. h k (omega arith))) refl

  unfoldable pub append_all : List Logged → Wal fs (Unit {0})
  append_all [] p = (ok tt, p)
  append_all (r ∷ rs) p = (append fs r.0 r.1 >>= λ _. append_all rs) p

  log_last :
      (d : fs.Fs) (n : ℕ)
      → 0 < n
      → log d n ≡ log d (n - 1) ++ or_empty (fs.content (segment_name n) d)
  unfolding log
  log_last d zero h = absurd (omega arith)
  log_last d (suc n) h =
      let e : suc n - 1 ≡ n = omega arith in
      ap (λ k. log d k ++ or_empty (fs.content (segment_name (suc n)) d)) (sym e)

  -- A change of one segment's file shows only there.
  log_below :
      (d d' : fs.Fs) (n : ℕ)
      → 0 < n
      → n < 2 ^ 64
      → ((m : Text) → m ≢ segment_name n → fs.content m d' ≡ fs.content m d)
      → log d' (n - 1) ≡ log d (n - 1)
  log_below d d' n pos small others = log_same d d' (n - 1) (λ k le.
      others (segment_name k) (λ same.
        let e = segment_name_injective k n (omega arith) small same in absurd (omega (arith, e))))

  -- The writer's fields against the directory, after `recs` were appended.
  pub record IsLog (recs : List Logged) (p : WalWriter × fs.Fs) : Type 0 where
    pub total : log p.1 (p.0).segment ≡ encode_all recs
    pub current :
        (((p.0).current_file ≡ none) × ((p.0).segment ≡ 0))
        ⊎ (((p.0).current_file ≡ some (segment_name (p.0).segment))
            × (0 < (p.0).segment)
            × ((c : Bytes) × (fs.content (segment_name (p.0).segment) p.1 ≡ some c)))
    pub fresh : (k : ℕ) → (p.0).segment < k → k < 2 ^ 64 → fs.content (segment_name k) p.1 ≡ none

  -- A log that has a file open.
  pub record IsOpen (recs : List Logged) (p : WalWriter × fs.Fs) : Type 0 where
    pub total : log p.1 (p.0).segment ≡ encode_all recs
    pub named : (p.0).current_file ≡ some (segment_name (p.0).segment)
    pub numbered : 0 < (p.0).segment
    pub holds : (c : Bytes) × (fs.content (segment_name (p.0).segment) p.1 ≡ some c)
    pub fresh : (k : ℕ) → (p.0).segment < k → k < 2 ^ 64 → fs.content (segment_name k) p.1 ≡ none

  pub rotate-IsOpen :
      (recs : List Logged) (p p' : WalWriter × fs.Fs)
      → IsLog recs p
      → (p.0).segment + 1 < 2 ^ 64
      → rotate fs p ≡ (ok tt, p')
      → IsOpen recs p' × ((p'.0).segment ≡ (p.0).segment + 1)
  unfolding log
  rotate-IsOpen recs p p' v small h =
      let (made, others, writer) = rotated fs p p' small h in
      let n = (p.0).segment + 1 in
      let seg : (p'.0).segment ≡ n = ap (λ w. w.segment) writer in
      let back : n - 1 ≡ (p.0).segment = omega arith in
      let empty : fs.content (segment_name n) p.1 ≡ none = v.fresh n (omega arith) small in
      let created : fs.content (segment_name n) p'.1 ≡ some [] =
        made ∙ ap (λ o. some (or_empty o)) empty in
      (
        record {
          total =
              ap (log p'.1) seg
              ∙ log_last p'.1 n (omega arith)
              ∙ ap (λ o. log p'.1 (n - 1) ++ or_empty o) created
              ∙ append-nil (log p'.1 (n - 1))
              ∙ log_below p.1 p'.1 n (omega arith) small others
              ∙ ap (log p.1) back
              ∙ v.total;
          named = ap (λ w. w.current_file) writer ∙ ap (λ k. some (segment_name k)) (sym seg);
          numbered = omega (arith, seg);
          holds = ([], ap (λ k. fs.content (segment_name k) p'.1) seg ∙ created);
          fresh = λ k more small_k.
              others (segment_name k) (λ same.
                let e = segment_name_injective k n small_k small same in
                absurd (omega (arith, e, seg)))
              ∙ v.fresh k (omega (arith, seg)) small_k;
        },
        seg,
      )

  pub append_now-IsLog :
      (recs : List Logged) (r : Logged) (p p' : WalWriter × fs.Fs)
      → IsOpen recs p
      → (p.0).segment < 2 ^ 64
      → append_now fs r.0 r.1 p ≡ (ok tt, p')
      → IsLog (recs ++ (r ∷ [])) p' × ((p'.0).segment ≡ (p.0).segment)
  unfolding append_now log
  append_now-IsLog recs r p p' v small h =
      let n = (p.0).segment in
      let (c, held) = v.holds in
      let h' : write_record fs r.0 r.1 (segment_name n) p ≡ (ok tt, p') =
        sym (ap (λ f. (or_panic f >>= write_record fs r.0 r.1) p) v.named) ∙ h in
      let (now, others, writer) = written fs r.0 r.1 (segment_name n) c p p' held h' in
      let seg : (p'.0).segment ≡ n = ap (λ w. w.segment) writer in
      let before : log p.1 (n - 1) ++ c ≡ encode_all recs =
        sym (log_last p.1 n v.numbered ∙ ap (λ o. log p.1 (n - 1) ++ or_empty o) held) ∙ v.total in
      (
        record {
          total =
              ap (log p'.1) seg
              ∙ log_last p'.1 n v.numbered
              ∙ ap (λ o. log p'.1 (n - 1) ++ or_empty o) now
              ∙ ap (λ l. l ++ (c ++ encode_record r)) (log_below p.1 p'.1 n v.numbered small others)
              ∙ sym (append_assoc (log p.1 (n - 1)) c (encode_record r))
              ∙ ap (λ l. l ++ encode_record r) before
              ∙ sym (encode_all-snoc recs r);
          current = inr (
            ap (λ w. w.current_file) writer ∙ v.named ∙ ap (λ k. some (segment_name k)) (sym seg),
            omega (arith, v.numbered, seg),
            (c ++ encode_record r, ap (λ k. fs.content (segment_name k) p'.1) seg ∙ now),
          );
          fresh = λ k more small_k.
              others (segment_name k) (λ same.
                let e = segment_name_injective k n small_k small same in
                absurd (omega (arith, e, seg)))
              ∙ v.fresh k (omega (arith, seg)) small_k;
        },
        seg,
      )
