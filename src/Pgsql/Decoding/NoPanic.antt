-- ===== src/Pgsql/Decoding/NoPanic.antt =====
-- Bytes left against bytes read, in each function of the decoder.
use nendi.Common.{
  ℕ, nat_eq, codes, hex_encode, ◌++◌, zero, suc, ◌+◌, ◌≢◌, refl, Bool, true, false, Option, none,
  some, List, [], ◌∷◌, Bytes, arith, Option-cases, inl, inr, lookup, ◌==◌, split_once, is_utf8,
  if◌then◌else◌, Bool-cases, ◌||◌, ltb,
}
use nendi.Common.Cursor.{Outcome, ok, err, panic, Reader}
use nendi.Common.Cursor.Safe.{
  IsSafe, IsSafe-pure, IsSafe-fail, Needs-bind, Needs-if, Needs-weaken, Needs-ensure, Needs-slice,
  Needs-word, Needs-text, Needs-index, Needs-index_last, Needs-word_last,
}
use nendi.Shared.Lsn.{Lsn}
use nendi.Shared.Event.{ChangeEvent}
use nendi.Pgsql.Decoding.Tuples.{
  DecodeError, ColumnMeta, read_u8, read_u16, read_u32, read_cstring, read_value, read_text,
  read_binary, decode_columns, decode_tuple_data,
}
use nendi.Pgsql.Decoding.{
  RelationInfo, Relations, decode_begin, decode_commit, decode_column_metas, decode_relation,
  find_relation, decode_insert, decode_old_tuple, decode_update, decode_delete, decode_truncate,
  with_event, without_event, with_relation, decode, Decoded,
}

read_u8-IsSafe : IsSafe read_u8
unfolding read_u8
read_u8-IsSafe = Needs-ensure 1 _ Needs-index_last

read_u16-IsSafe : IsSafe read_u16
unfolding read_u16
read_u16-IsSafe = Needs-ensure 2 _ (Needs-word_last 2)

read_u32-IsSafe : IsSafe read_u32
unfolding read_u32
read_u32-IsSafe = Needs-ensure 4 _ (Needs-word_last 4)

read_cstring-IsSafe : IsSafe read_cstring
unfolding read_cstring
read_cstring-IsSafe = record {
  safe = λ s h. elim (Option-cases (split_once 0 s)) [
    | inl e ↦ rw (e, read_cstring) (λ p. cc)
    | inr ((a, b), e) ↦ elim (Bool-cases (is_utf8 a)) [
      | inl good ↦ rw (e, read_cstring) (rw good (λ p. cc))
      | inr bad ↦ rw (e, read_cstring) (rw bad (λ p. cc))
    ]
  ];
}

read_text-IsSafe : IsSafe read_text
unfolding read_text
read_text-IsSafe = Needs-bind read_u32-IsSafe (λ len.
    Needs-ensure len _
      (Needs-weaken len (omega arith) (Needs-text _ len 0 (λ v. IsSafe-pure (some v)))))

read_binary-IsSafe : IsSafe read_binary
unfolding read_binary
read_binary-IsSafe = Needs-bind read_u32-IsSafe (λ len. Needs-ensure len _ (
    Needs-weaken len (omega arith)
      (Needs-slice len 0 (λ v. IsSafe-pure (some (codes "\\x" ++ hex_encode v))))))

read_value-IsSafe : (tag : ℕ) → IsSafe (read_value tag)
unfolding read_value
read_value-IsSafe tag =
    Needs-if (tag == b't') read_text-IsSafe
      (Needs-if (tag == b'b') read_binary-IsSafe (IsSafe-pure none))

decode_columns-IsSafe : (cs : List ColumnMeta) (n i : ℕ) → IsSafe (decode_columns cs n i)
unfolding decode_columns
decode_columns-IsSafe cs zero i = IsSafe-pure []
decode_columns-IsSafe cs (suc n) i = Needs-bind read_u8-IsSafe λ tag.
    Needs-bind (read_value-IsSafe tag)
      λ value. Needs-bind (decode_columns-IsSafe cs n (i + 1)) (λ rest. IsSafe-pure _)

decode_tuple_data-IsSafe : (cs : List ColumnMeta) → IsSafe (decode_tuple_data cs)
unfolding decode_tuple_data
decode_tuple_data-IsSafe cs =
    Needs-bind read_u16-IsSafe (λ n. Needs-bind (decode_columns-IsSafe cs n 0) (λ r. IsSafe-pure _))

decode_begin-IsSafe : IsSafe decode_begin
unfolding decode_begin
decode_begin-IsSafe =
    Needs-ensure 20 _
      (Needs-word 8 12 (λ l. Needs-word 8 4 (λ t. Needs-word 4 0 (λ x. IsSafe-pure tt))))

decode_commit-IsSafe : IsSafe decode_commit
unfolding decode_commit
decode_commit-IsSafe =
    Needs-ensure 25 _
      (Needs-weaken 25 (omega arith) (Needs-index 8 (λ f. Needs-word 8 0 (λ l. IsSafe-pure tt))))

decode_column_metas-IsSafe : (n : ℕ) → IsSafe (decode_column_metas n)
unfolding decode_column_metas
decode_column_metas-IsSafe zero = IsSafe-pure []
decode_column_metas-IsSafe (suc n) = Needs-bind read_u8-IsSafe λ flags.
    Needs-bind read_cstring-IsSafe λ name. Needs-bind read_u32-IsSafe λ oid.
      Needs-bind read_u32-IsSafe
        λ modifier. Needs-bind (decode_column_metas-IsSafe n) (λ cs. IsSafe-pure _)

decode_relation-IsSafe : IsSafe decode_relation
unfolding decode_relation
decode_relation-IsSafe = Needs-bind read_u32-IsSafe λ id. Needs-bind read_cstring-IsSafe λ schema.
    Needs-bind read_cstring-IsSafe λ table. Needs-bind read_u8-IsSafe λ replica.
      Needs-bind read_u16-IsSafe
        λ n. Needs-bind (decode_column_metas-IsSafe n) (λ cs. IsSafe-pure _)

find_relation-IsSafe : (rs : Relations) (id : ℕ) → IsSafe (find_relation rs id)
unfolding find_relation
find_relation-IsSafe rs id = elim (Option-cases (lookup id rs)) [
  | inl e ↦ rw (e, find_relation) (IsSafe-fail _)
  | inr (rel, e) ↦ rw (e, find_relation) (IsSafe-pure rel)
]

decode_old_tuple-IsSafe : (cs : List ColumnMeta) (tag : ℕ) → IsSafe (decode_old_tuple cs tag)
unfolding decode_old_tuple
decode_old_tuple-IsSafe cs tag =
    Needs-if (tag == b'K' || tag == b'O')
      (Needs-bind (decode_tuple_data-IsSafe cs)
        (λ row. Needs-bind read_u8-IsSafe (λ t. IsSafe-pure _)))
      (IsSafe-pure none)

module _ (compute_fingerprint : RelationInfo → ℕ) (rs : Relations) (lsn : Lsn) where
  decode_insert-IsSafe : IsSafe (decode_insert compute_fingerprint rs lsn)
  unfolding decode_insert
  decode_insert-IsSafe = Needs-bind read_u32-IsSafe λ id. Needs-bind read_u8-IsSafe λ tag.
      Needs-bind (Needs-if (tag == b'N') (IsSafe-pure tt) (IsSafe-fail _)) λ _.
        Needs-bind (find_relation-IsSafe rs id)
          λ rel. Needs-bind (decode_tuple_data-IsSafe rel.columns) (λ row. IsSafe-pure _)

  decode_update-IsSafe : IsSafe (decode_update compute_fingerprint rs lsn)
  unfolding decode_update
  decode_update-IsSafe = Needs-bind read_u32-IsSafe λ id.
      Needs-bind (find_relation-IsSafe rs id) λ rel. Needs-bind read_u8-IsSafe λ tag.
        Needs-bind (decode_old_tuple-IsSafe rel.columns tag)
          λ before. Needs-bind (decode_tuple_data-IsSafe rel.columns) (λ row. IsSafe-pure _)

  decode_delete-IsSafe : IsSafe (decode_delete compute_fingerprint rs lsn)
  unfolding decode_delete
  decode_delete-IsSafe = Needs-bind read_u32-IsSafe λ id.
      Needs-bind (find_relation-IsSafe rs id) λ rel.
        Needs-bind read_u8-IsSafe
          λ tag. Needs-bind (decode_tuple_data-IsSafe rel.columns) (λ row. IsSafe-pure _)

  decode_truncate-IsSafe : IsSafe (decode_truncate compute_fingerprint rs lsn)
  unfolding decode_truncate
  decode_truncate-IsSafe = Needs-bind read_u32-IsSafe λ n. Needs-bind read_u8-IsSafe λ options.
      Needs-if (ltb 0 n) (Needs-bind read_u32-IsSafe (λ id. IsSafe-pure _)) (IsSafe-pure none)

  with_event-ne-panic :
      {m : Reader DecodeError (Option ChangeEvent)} (s : Bytes)
      → IsSafe m
      → with_event compute_fingerprint rs (m s) ≢ panic
  with_event-ne-panic {m} s hm = by_result (m s) (hm.safe s (omega arith))
    where
      by_result :
          (r : Outcome DecodeError (Option ChangeEvent × Bytes))
          → r ≢ panic
          → with_event compute_fingerprint rs r ≢ panic
      by_result (ok (e, s')) h = unfold with_event in λ p. cc
      by_result (err x) h = unfold with_event in λ p. cc
      by_result panic h = absurd (h refl)

  without_event-ne-panic :
      {m : Reader DecodeError (Unit {0})} (s : Bytes)
      → IsSafe m
      → without_event compute_fingerprint rs (m s) ≢ panic
  without_event-ne-panic {m} s hm = by_result (m s) (hm.safe s (omega arith))
    where
      by_result :
          (r : Outcome DecodeError (Unit {0} × Bytes))
          → r ≢ panic
          → without_event compute_fingerprint rs r ≢ panic
      by_result (ok (e, s')) h = unfold without_event in λ p. cc
      by_result (err x) h = unfold without_event in λ p. cc
      by_result panic h = absurd (h refl)

  with_relation-ne-panic :
      {m : Reader DecodeError (ℕ × RelationInfo)} (s : Bytes)
      → IsSafe m
      → with_relation compute_fingerprint rs (m s) ≢ panic
  with_relation-ne-panic {m} s hm = by_result (m s) (hm.safe s (omega arith))
    where
      by_result :
          (r : Outcome DecodeError ((ℕ × RelationInfo) × Bytes))
          → r ≢ panic
          → with_relation compute_fingerprint rs r ≢ panic
      by_result (ok ((id, rel), s')) h = unfold with_relation in λ p. cc
      by_result (err x) h = unfold with_relation in λ p. cc
      by_result panic h = absurd (h refl)

  if_ne :
      (b : Bool) {x y : Decoded compute_fingerprint}
      → x ≢ panic
      → y ≢ panic
      → (if b then x else y) ≢ panic
  if_ne true hx hy = hx
  if_ne false hx hy = hy

  -- Decoding any bytes, at any position and whatever relations are known, gives an event, nothing or
  -- an error; it never panics.
  pub decode-ne-panic : (message : Bytes) → decode compute_fingerprint rs lsn message ≢ panic
  unfolding decode
  decode-ne-panic [] = λ p. cc
  decode-ne-panic (tag ∷ payload) =
      if_ne (tag == b'B') (without_event-ne-panic payload decode_begin-IsSafe) (
        if_ne (tag == b'C') (without_event-ne-panic payload decode_commit-IsSafe) (
          if_ne (tag == b'R') (with_relation-ne-panic payload decode_relation-IsSafe) (
            if_ne (tag == b'I') (with_event-ne-panic payload decode_insert-IsSafe) (
              if_ne (tag == b'U') (with_event-ne-panic payload decode_update-IsSafe) (
                if_ne (tag == b'D') (with_event-ne-panic payload decode_delete-IsSafe) (
                  if_ne (tag == b'T') (with_event-ne-panic payload decode_truncate-IsSafe)
                    (λ p. cc)))))))
