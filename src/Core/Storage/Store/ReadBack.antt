-- ===== src/Core/Storage/Store/ReadBack.antt =====
-- What a store gives back of the batches written to it.
use nendi.Common.{
  ◌^◌, ◌<◌, ◌*◌, ◌-◌, ℕ, ◌≤◌, ◌≡◌, ◌↔◌, ◌⊎◌, inl, inr, refl, sym, ap, ◌∙◌, arith, max, true, false,
  fits_capacity, Option, Option-cases, none, some, List, [], ◌∷◌, ◌++◌, append-nil, append_assoc,
  Bytes, take, ltb, be, lex_ltb, lex-append, lex-be, length-be, map, All,
}
use nendi.Common.Options.{◌>>=◌, map_option}
use nendi.Common.Cursor.{ok}
use nendi.Shared.Lsn.{Lsn, IsLsn, to_be_bytes}
use nendi.Shared.Event.{ChangeEvent}
use nendi.Shared.Proto.{encode_event}
use nendi.Shared.Proto.RoundTrip.{IsWireEvent}
use nendi.Core.Storage.Keys.{make_key}
use nendi.Core.Storage.Store.{
  Entry, Among, IsSorted, from_key, KeyValueStore, entry, write_batch, read_from,
}
use nendi.Core.Storage.Store.Entries.{
  latest, last_put-entries, latest_found, read_loop-entries, among-from_key, from_key-IsSorted,
  IsEntry, All-among, events_of, among_all, encode_event_injective, among-entries, latest-append,
}

-- A key is below that of a position exactly if the event is.
pub lex-make_key_start :
    (e : ChangeEvent) (start : Lsn)
    → IsWireEvent e
    → IsLsn start
    → lex_ltb (make_key e) (to_be_bytes start) ≡ ltb e.lsn start
unfolding make_key to_be_bytes
lex-make_key_start e start w h =
    ap (λ s. lex_ltb (be 8 e.lsn ++ be 4 e.xid) s) (sym (append-nil (be 8 start)))
    ∙ lex-append (be 8 e.lsn) (be 8 start) (be 4 e.xid) []
        (length-be 8 e.lsn ∙ sym (length-be 8 start))
    ∙ ground
        (arith, lex-be 8 e.lsn start (omega (arith, w.lsn)) (omega arith), never_below (be 4 e.xid))
  where
    never_below : (s : Bytes) → lex_ltb s [] ≡ false
    never_below [] = unfold lex_ltb in refl
    never_below (x ∷ s) = unfold lex_ltb in refl

unfoldable pub all_events : List (List ChangeEvent) → List ChangeEvent
all_events [] = []
all_events (b ∷ bs) = b ++ all_events bs

module _ (kv : KeyValueStore) where
  -- Batch after batch; `none` if a write fails.
  unfoldable pub write_all : List (List ChangeEvent) → kv.Db → Option kv.Db
  write_all [] db = some db
  write_all (b ∷ bs) db = write_batch kv b db >>= write_all bs

  -- The entries are the last events of their keys.
  record Holds (evs : List ChangeEvent) (db : kv.Db) : Type 0 where
    entries :
        (k v : Bytes)
        → Among (k, v) (kv.contents db) ↔ (map_option encode_event (latest k evs) ≡ some v)

  write_batch-Holds :
      (evs batch : List ChangeEvent) (db db' : kv.Db)
      → Holds evs db
      → write_batch kv batch db ≡ some db'
      → Holds (evs ++ batch) db'
  unfolding write_batch
  write_batch-Holds evs batch db db' h written = record {
    entries = λ k v. rw (latest-append k evs batch) (
        by_new k v (latest k batch) (
          rw (last_put-entries k batch) at
            (kv.contents-write (map entry batch) db db' written k v)));
  }
    where
      by_new :
          (k v : Bytes) (o : Option ChangeEvent)
          → Among (k, v) (kv.contents db') ↔ (
              (map_option encode_event o ≡ some v)
              ⊎ ((map_option encode_event o ≡ none) × Among (k, v) (kv.contents db)))
          → Among (k, v) (kv.contents db') ↔ (
              map_option encode_event
                (elim o as (λ _. Option ChangeEvent) [ some d ↦ some d | none ↦ latest k evs ])
              ≡ some v)
      by_new k v none law = (
        (λ a. elim (law.0 a) [ inl e ↦ cc | inr p ↦ ((h.entries k v).0 p.1) ]),
        (λ e. law.1 (inr (refl, (h.entries k v).1 e))),
      )
      by_new k v (some d) law =
          ((λ a. elim (law.0 a) [ inl e ↦ e | inr p ↦ let no = p.0 in cc ]), (λ e. law.1 (inl e)))

  write_all-Holds :
      (batches : List (List ChangeEvent)) (evs : List ChangeEvent) (db db' : kv.Db)
      → Holds evs db
      → write_all batches db ≡ some db'
      → Holds (evs ++ all_events batches) db'
  unfolding write_all all_events
  write_all-Holds [] evs db db' h w = let same : db ≡ db' = cc in rw (← same, append-nil evs) h
  write_all-Holds (b ∷ bs) evs db db' h w = elim (Option-cases (write_batch kv b db)) [
    | inl failed ↦ let no : none ≡ some db' = rw failed at w in cc
    | inr (mid, written) ↦
        let w' : write_all bs mid ≡ some db' = rw written at w in
        rw append_assoc at
          (write_all-Holds bs (evs ++ b) mid db' (write_batch-Holds evs b db mid h written) w')
  ]

  found_event :
      (evs : List ChangeEvent) (k v : Bytes)
      → All IsWireEvent evs
      → map_option encode_event (latest k evs) ≡ some v
      → (e : ChangeEvent) × (latest k evs ≡ some e) × IsWireEvent e × ((k, v) ≡ entry e)
  unfolding entry
  found_event evs k v ws h = elim (Option-cases (latest k evs)) [
    | inl missing ↦ let no : none ≡ some v = rw missing at h in cc
    | inr (e, found) ↦
        let (among, key) = latest_found k evs e found in
        let value : some (encode_event e) ≡ some v = rw found at h in
        let value' : encode_event e ≡ v = cc in
        (e, found, among_all IsWireEvent evs e ws among, (λ i. (sym key i, sym value' i)))
  ]

  empty-Holds : (db : kv.Db) → kv.contents db ≡ [] → Holds [] db
  unfolding latest
  empty-Holds db none_yet = record { entries = λ k v. rw none_yet ((λ f. absurd f), (λ e. cc)) }

  in_range_iff :
      (evs es : List ChangeEvent) (db : kv.Db) (start : Lsn) (e : ChangeEvent)
      → Holds evs db
      → All IsWireEvent evs
      → All IsWireEvent es
      → IsLsn start
      → map entry es ≡ from_key (to_be_bytes start) (kv.contents db)
      → Among e es ↔ ((latest (make_key e) evs ≡ some e) × (start ≤ e.lsn))
  unfolding entry
  in_range_iff evs es db start e h ws us hs given = (to, from)
    where
      to : Among e es → (latest (make_key e) evs ≡ some e) × (start ≤ e.lsn)
      to a =
          let w = among_all IsWireEvent es e us a in
          let listed : Among (entry e) (map entry es) = (among-entries es e us w).1 a in
          let listed' : Among (entry e) (from_key (to_be_bytes start) (kv.contents db)) =
            rw given at listed in
          let (stored, past) =
            (among-from_key (to_be_bytes start) (kv.contents db) (entry e)).0 listed' in
          let (d, found, wd, same) =
            found_event evs (make_key e) (encode_event e) ws
              ((h.entries (make_key e) (encode_event e)).0 stored) in
          let one : e ≡ d = encode_event_injective e d w wd (ap (λ x. x.1) same) in
          let low : ltb e.lsn start ≡ false = sym (lex-make_key_start e start w hs) ∙ past in
          (found ∙ ap some (sym one), ground arith)

      from : (latest (make_key e) evs ≡ some e) × (start ≤ e.lsn) → Among e es
      from (found, le) =
          let w = among_all IsWireEvent evs e ws (latest_found (make_key e) evs e found).0 in
          let stored : Among (entry e) (kv.contents db) =
            (h.entries (make_key e) (encode_event e)).1 (ap (map_option encode_event) found) in
          let past : lex_ltb (make_key e) (to_be_bytes start) ≡ false =
            lex-make_key_start e start w hs ∙ ground arith in
          let listed =
            (among-from_key (to_be_bytes start) (kv.contents db) (entry e)).1 (stored, past) in
          (among-entries es e us w).0 (rw (sym given) at listed)

  -- Batches of events whose fields are in range and fit their length fields are written to an empty
  -- column family, all successfully, and events then read from a position, a `u64`, with no I/O error,
  -- and with a limit for which a vector of events does not overflow its capacity.
  -- The events that come back are the first ones, as many as the limit allows and one at least, of
  -- those that are at or past the position and that no later event with the same key has overwritten;
  -- and they come in the order of their keys.
  pub read_from-write_all :
      (batches : List (List ChangeEvent)) (db db' : kv.Db) (items : List Entry) (start : Lsn)
      (size_of_event limit : ℕ)
      → limit * size_of_event < 2 ^ 63
      → kv.contents db ≡ []
      → write_all batches db ≡ some db'
      → All IsWireEvent (all_events batches)
      → IsLsn start
      → kv.iterator (to_be_bytes start) db' ≡ map some items
      → (es : List ChangeEvent) × (read_from kv size_of_event start limit db'
          ≡ ok (take (max 1 limit) es))
        × IsSorted (map entry es)
        × ((e : ChangeEvent)
            → Among e es ↔ ((latest (make_key e) (all_events batches) ≡ some e) × (start ≤ e.lsn)))
  unfolding read_from
  read_from-write_all batches db db' items start size_of_event limit room none_yet written ws hs
        iterated =
      let evs = all_events batches in
      let holds = write_all-Holds batches [] db db' (empty-Holds db none_yet) written in
      let given = kv.iterator_items (to_be_bytes start) db' items iterated in
      let is_entry : (x : Entry) → Among x items → IsEntry x = λ x a.
        let a' : Among x (from_key (to_be_bytes start) (kv.contents db')) = rw given at a in
        let (stored, _) = (among-from_key (to_be_bytes start) (kv.contents db') x).0 a' in
        let (e, _, w, is) = found_event evs x.0 x.1 ws ((holds.entries x.0 x.1).0 stored) in
        (e, w, is) in
      let (es, entries, us) = events_of items (All-among IsEntry items is_entry) in
      let fits : fits_capacity size_of_event limit ≡ true = ground arith in
      let all : limit - 0 ≡ limit = omega arith in
      (
        es,
        rw (fits, iterated, entries) (rw all at (read_loop-entries limit es [] us)),
        rw (sym entries ∙ given)
            (from_key-IsSorted (to_be_bytes start) (kv.contents db') (kv.sorted db')),
        λ e. in_range_iff evs es db' start e holds ws us hs (sym entries ∙ given),
      )
