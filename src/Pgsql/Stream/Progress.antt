-- ===== src/Pgsql/Stream/Progress.antt =====
-- How far a stream has come.
use nendi.Common.{ℕ, ◌≡◌, refl, ap, Option, List, [], ◌∷◌, Bytes}
use nendi.Common.Cursor.{Outcome, ok, err, panic}
use nendi.Shared.Lsn.{Lsn}
use nendi.Shared.Event.{ChangeEvent}
use nendi.Pgsql.Decoding.Tuples.{DecodeError}
use nendi.Pgsql.Decoding.{RelationInfo, Relations, decode, Decoded}
use nendi.Pgsql.Stream.{ReplicationStream, new, processed, process_message}

abbrev pub Answer : Type 0
Answer = Outcome DecodeError (Option ChangeEvent)

module _ (compute_fingerprint : RelationInfo → ℕ) where
  unfoldable pub process_all :
      List (Lsn × Bytes) → ReplicationStream → List Answer × ReplicationStream
  process_all [] s = ([], s)
  process_all ((lsn, message) ∷ ms) s =
      let (answer, s') = process_message compute_fingerprint lsn message s in
      let rest = process_all ms s' in (answer ∷ rest.0, rest.1)

  -- The answers of the decoder alone, with its relations handed from message to message.
  unfoldable pub answer_of : Decoded compute_fingerprint → Answer
  answer_of (ok (event, _)) = ok event
  answer_of (err e) = err e
  answer_of panic = panic

  unfoldable pub relations_after : Relations → Decoded compute_fingerprint → Relations
  relations_after rs (ok (_, rs')) = rs'
  relations_after rs (err e) = rs
  relations_after rs panic = rs

  unfoldable pub decode_all : Relations → List (Lsn × Bytes) → List Answer
  unfolding answer_of relations_after
  decode_all rs [] = []
  decode_all rs ((lsn, message) ∷ ms) =
      let result = decode compute_fingerprint rs lsn message in
      answer_of result ∷ decode_all (relations_after rs result) ms

  -- The position of the last message that the answers count as processed.
  unfoldable pub last_ok : Lsn → List (Lsn × Bytes) → List Answer → Lsn
  last_ok l ((lsn, _) ∷ ms) (ok _ ∷ answers) = last_ok lsn ms answers
  last_ok l (_ ∷ ms) (_ ∷ answers) = last_ok l ms answers
  last_ok l _ _ = l

  abbrev Agrees : List (Lsn × Bytes) → ReplicationStream → Type 0
  Agrees ms s =
      ((process_all ms s).0 ≡ decode_all s.decoder ms)
      × ((process_all ms s).1.last_processed_lsn
          ≡ last_ok s.last_processed_lsn ms (decode_all s.decoder ms))

  by_result :
      (r : Decoded compute_fingerprint) (lsn : Lsn) (message : Bytes) (ms : List (Lsn × Bytes))
      (s : ReplicationStream)
      → ((t : ReplicationStream) → Agrees ms t)
      → let (answer, s') = processed compute_fingerprint lsn s r in
        let answers : List Answer = answer_of r ∷ decode_all (relations_after s.decoder r) ms in
        (answer ∷ (process_all ms s').0 ≡ answers)
        × ((process_all ms s').1.last_processed_lsn
            ≡ last_ok s.last_processed_lsn ((lsn, message) ∷ ms) answers)
  unfolding processed last_ok answer_of relations_after
  by_result (ok (event, rs)) lsn message ms s h =
      let (a, l) = h (record s { decoder = rs; last_processed_lsn = lsn }) in
      (ap (λ l. ok event ∷ l) a, l)
  by_result (err e) lsn message ms s h = let (a, l) = h s in (ap (λ l. err e ∷ l) a, l)
  by_result panic lsn message ms s h = let (a, l) = h s in (ap (λ l. panic ∷ l) a, l)

  process_all_from : (ms : List (Lsn × Bytes)) (s : ReplicationStream) → Agrees ms s
  unfolding process_all decode_all last_ok process_message
  process_all_from [] s = (refl, refl)
  process_all_from ((lsn, message) ∷ ms) s =
      by_result (decode compute_fingerprint s.decoder lsn message) lsn message ms s
        (process_all_from ms)

  -- A stream answers messages as the decoder does that is handed its relations from one message to the
  -- next, an error being answered and then passed over; and the position that it reports is that of
  -- the last message without an error, or the start's.
  pub process_all-new :
      (ms : List (Lsn × Bytes)) (start : Lsn)
      → ((process_all ms (new start)).0 ≡ decode_all [] ms)
        × ((process_all ms (new start)).1.last_processed_lsn ≡ last_ok start ms (decode_all [] ms))
  unfolding new
  process_all-new ms start = process_all_from ms (new start)
