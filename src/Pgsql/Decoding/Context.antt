-- ===== src/Pgsql/Decoding/Context.antt =====
-- What decoded events say of their transaction.
use nendi.Common.{
  ℕ, ◌≡◌, refl, Bool, true, false, Option, none, some, [], ◌∷◌, Bytes, ◌==◌, ltb, lookup, nat_eq,
  if◌then◌else◌,
}
use nendi.Common.Cursor.{Outcome, ok, err, panic, Reader}
use nendi.Common.Cursor.Results.{Gives, Gives-pure, Gives-bind, Gives-if}
use nendi.Shared.Lsn.{Lsn}
use nendi.Shared.Event.{ChangeEvent, OpType}
use nendi.Pgsql.Decoding.Tuples.{DecodeError, read_u8, read_u32, decode_tuple_data}
use nendi.Pgsql.Decoding.{
  RelationInfo, Relations, find_relation, event_of, decode_insert, decode_old_tuple, decode_update,
  decode_delete, decode_truncate, truncated, with_event, without_event, with_relation, decode,
  Decoded, decode_begin, decode_commit, decode_relation,
}

-- At the message's own position, and in no transaction: id and commit time are zero.
abbrev pub IsBare : Lsn → ChangeEvent → Type 0
IsBare lsn e = (e.lsn ≡ lsn) × (e.xid ≡ 0) × (e.commit_timestamp_us ≡ 0)

abbrev pub IfSome {ℓ} : (ChangeEvent → Type ℓ) → Option ChangeEvent → Type ℓ
IfSome P none = Unit
IfSome P (some e) = P e

module _ (compute_fingerprint : RelationInfo → ℕ) (rs : Relations) (lsn : Lsn) where
  abbrev Bare : Option ChangeEvent → Type 0
  Bare = IfSome (IsBare lsn)

  decode_insert-Gives : Gives Bare (decode_insert compute_fingerprint rs lsn)
  unfolding decode_insert event_of
  decode_insert-Gives = Gives-bind read_u32 λ id. Gives-bind read_u8 λ tag. Gives-bind _ λ _.
      Gives-bind (find_relation rs id)
        λ rel. Gives-bind (decode_tuple_data rel.columns) (λ row. Gives-pure (refl, refl, refl))

  decode_update-Gives : Gives Bare (decode_update compute_fingerprint rs lsn)
  unfolding decode_update event_of
  decode_update-Gives = Gives-bind read_u32 λ id. Gives-bind (find_relation rs id) λ rel.
      Gives-bind read_u8 λ tag.
        Gives-bind (decode_old_tuple rel.columns tag) λ before.
          Gives-bind (decode_tuple_data rel.columns) (λ row. Gives-pure (refl, refl, refl))

  decode_delete-Gives : Gives Bare (decode_delete compute_fingerprint rs lsn)
  unfolding decode_delete event_of
  decode_delete-Gives = Gives-bind read_u32 λ id. Gives-bind (find_relation rs id) λ rel.
      Gives-bind read_u8
        λ tag. Gives-bind (decode_tuple_data rel.columns) (λ row. Gives-pure (refl, refl, refl))

  truncated-Gives : Gives Bare (truncated compute_fingerprint rs lsn)
  unfolding truncated event_of
  truncated-Gives = Gives-bind read_u32 (λ id. Gives-pure (by_relation (lookup id rs)))
    where
      by_relation :
          (o : Option RelationInfo)
          → Bare (elim o [
            | none ↦ none
            | some rel ↦ some (event_of compute_fingerprint lsn OpType.truncate rel none none)
          ])
      by_relation none = tt
      by_relation (some rel) = (refl, refl, refl)

  decode_truncate-Gives : Gives Bare (decode_truncate compute_fingerprint rs lsn)
  unfolding decode_truncate
  decode_truncate-Gives =
      Gives-bind read_u32
        λ n. Gives-bind read_u8 (λ options. Gives-if (ltb 0 n) truncated-Gives (Gives-pure tt))

  abbrev BareResult : Decoded compute_fingerprint → Type 0
  BareResult (ok (event, _)) = Bare event
  BareResult (err _) = Unit
  BareResult panic = Unit

  with_event-BareResult :
      {m : Reader DecodeError (Option ChangeEvent)} (s : Bytes)
      → Gives Bare m
      → BareResult (with_event compute_fingerprint rs (m s))
  with_event-BareResult {m} s hm = by_result (m s) (hm.holds s)
    where
      by_result :
          (r : Outcome DecodeError (Option ChangeEvent × Bytes))
          → ((a : Option ChangeEvent) (rest : Bytes) → r ≡ ok (a, rest) → Bare a)
          → BareResult (with_event compute_fingerprint rs r)
      by_result (ok (e, rest)) h = unfold with_event in h e rest refl
      by_result (err x) h = unfold with_event in tt
      by_result panic h = unfold with_event in tt

  without_event-BareResult :
      (r : Outcome DecodeError (Unit {0} × Bytes))
      → BareResult (without_event compute_fingerprint rs r)
  unfolding without_event
  without_event-BareResult (ok _) = tt
  without_event-BareResult (err _) = tt
  without_event-BareResult panic = tt

  with_relation-BareResult :
      (r : Outcome DecodeError ((ℕ × RelationInfo) × Bytes))
      → BareResult (with_relation compute_fingerprint rs r)
  unfolding with_relation
  with_relation-BareResult (ok ((id, rel), _)) = tt
  with_relation-BareResult (err _) = tt
  with_relation-BareResult panic = tt

  if_BareResult :
      (b : Bool) (x y : Decoded compute_fingerprint)
      → BareResult x
      → BareResult y
      → BareResult (if b then x else y)
  if_BareResult true x y hx hy = hx
  if_BareResult false x y hx hy = hy

  decode-BareResult : (message : Bytes) → BareResult (decode compute_fingerprint rs lsn message)
  unfolding decode
  decode-BareResult [] = tt
  decode-BareResult (tag ∷ payload) =
      if_BareResult (tag == b'B') _ _ (without_event-BareResult (decode_begin payload)) (
        if_BareResult (tag == b'C') _ _ (without_event-BareResult (decode_commit payload)) (
          if_BareResult (tag == b'R') _ _ (with_relation-BareResult (decode_relation payload)) (
            if_BareResult (tag == b'I') _ _ (with_event-BareResult payload decode_insert-Gives) (
              if_BareResult (tag == b'U') _ _ (with_event-BareResult payload decode_update-Gives) (
                if_BareResult (tag == b'D') _ _ (with_event-BareResult payload decode_delete-Gives)
                  (if_BareResult (tag == b'T') _ _
                    (with_event-BareResult payload decode_truncate-Gives) tt))))))

  -- Every event that the decoder gives carries the position that it was called with, the transaction
  -- id 0 and the commit time 0, whatever Begin and Commit messages came before.
  pub decode-IsBare :
      (message : Bytes) (e : ChangeEvent) (rs' : Relations)
      → decode compute_fingerprint rs lsn message ≡ ok (some e, rs')
      → IsBare lsn e
  decode-IsBare message e rs' h = rw h at (decode-BareResult message)
