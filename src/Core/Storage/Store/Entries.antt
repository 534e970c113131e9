-- ===== src/Core/Storage/Store/Entries.antt =====
-- Entries and the events that they are of.
use nendi.Common.{
  ◌≢◌, ℕ, zero, suc, ◌-◌, ◌≡◌, ◌↔◌, inl, inr, refl, sym, ap, ◌∙◌, arith, max, true, false,
  Bool-cases, Option, Option-cases, none, some, List, [], ◌∷◌, ◌++◌, append_assoc, append-nil,
  Bytes, length, length-append, take, leb, lex_ltb, text_eq, text_eq_iff, if◌then◌else◌, map, All,
}
use nendi.Common.Options.{map_option}
use nendi.Common.Cursor.{ok}
use nendi.Shared.Event.{ChangeEvent}
use nendi.Shared.Proto.{encode_event, decode_event}
use nendi.Shared.Proto.RoundTrip.{IsWireEvent, decode_event-encode_event}
use nendi.Core.Storage.Keys.{make_key}
use nendi.Core.Storage.Store.{Entry, Among, IsSorted, last_put, from_key, entry, stop_at, read_loop}

-- The last event with a key.
unfoldable pub latest : Bytes → List ChangeEvent → Option ChangeEvent
latest k [] = none
latest k (e ∷ es) = elim (latest k es) [
  | some d ↦ some d
  | none ↦ if text_eq (make_key e) k then some e else none
]

pub last_put-entries :
    (k : Bytes) (es : List ChangeEvent)
    → last_put k (map entry es) ≡ map_option encode_event (latest k es)
unfolding last_put latest entry
last_put-entries k [] = refl
last_put-entries k (e ∷ es) = rw (last_put-entries k es) (by_rest (latest k es))
  where
    by_rest :
        (o : Option ChangeEvent)
        → elim (map_option encode_event o) [
          | some w ↦ some w
          | none ↦ if text_eq (make_key e) k then some (encode_event e) else none
        ]
          ≡ map_option encode_event
              (elim o [ some d ↦ some d | none ↦ if text_eq (make_key e) k then some e else none ])
    by_rest (some d) = refl
    by_rest none = elim (Bool-cases (text_eq (make_key e) k)) [
      | inl same ↦ rw same refl
      | inr other ↦ rw other refl
    ]

-- What is found stands in the list, under the key.
pub latest_found :
    (k : Bytes) (es : List ChangeEvent) (e : ChangeEvent)
    → latest k es ≡ some e
    → Among e es × (make_key e ≡ k)
unfolding latest
latest_found k [] e h = cc
latest_found k (d ∷ es) e h = elim (Option-cases (latest k es)) [
  | inl missing ↦ elim (Bool-cases (text_eq (make_key d) k)) [
    | inl same ↦
        let de : some d ≡ some e = rw (missing, same) at h in
        let de' : d ≡ e = cc in
        (inl de', ap make_key (sym de') ∙ (text_eq_iff (make_key d) k).0 same)
    | inr other ↦ let no : none ≡ some e = rw (missing, other) at h in cc
  ]
  | inr (c, found) ↦
      let ce : some c ≡ some e = rw found at h in
      let ce' : c ≡ e = cc in
      let (among, key) = latest_found k es e (found ∙ ap some ce') in (inr among, key)
]

take-nil : (n : ℕ) → take {A = ChangeEvent} n [] ≡ []
take-nil zero = refl
take-nil (suc n) = refl

-- The events that are stored as they are, under their keys.
pub read_loop-entries :
    (limit : ℕ) (es acc : List ChangeEvent)
    → All IsWireEvent es
    → read_loop limit (map some (map entry es)) acc
      ≡ ok (acc ++ take (max 1 (limit - length acc)) es)
unfolding read_loop entry stop_at
read_loop-entries limit [] acc h = rw (take-nil (max 1 (limit - length acc)), append-nil acc) refl
read_loop-entries limit (e ∷ es) acc (w, ws) =
    rw (decode_event-encode_event e w, read_loop)
      (elim (Bool-cases (leb limit (length (acc ++ (e ∷ []))))) [
        | inl enough ↦
            let one : max 1 (limit - length acc) ≡ 1 = ground (arith, length-append acc (e ∷ [])) in
            rw (enough, one) refl
        | inr more ↦
            let rest : max 1 (limit - length acc) ≡ suc (max 1 (limit - length (acc ++ (e ∷ [])))) =
              ground (arith, length-append acc (e ∷ [])) in
            rw (more, rest)
              (read_loop-entries limit es (acc ++ (e ∷ [])) ws
                ∙ ap ok (
                    append_assoc acc (e ∷ []) (take (max 1 (limit - length (acc ++ (e ∷ [])))) es)))
      ])

-- Membership in what an iterator gives.
pub true_ne_false : true ≢ false
true_ne_false e = cc

pub among-from_key :
    (start : Bytes) (m : List Entry) (x : Entry)
    → Among x (from_key start m) ↔ (Among x m × (lex_ltb x.0 start ≡ false))
unfolding from_key
among-from_key start [] x = ((λ f. absurd f), λ p. absurd p.0)
among-from_key start ((k, v) ∷ m) x =
    let same : ((k, v) ≡ x) → lex_ltb x.0 start ≡ lex_ltb k start =
      λ e. ap (λ y. lex_ltb y.0 start) (sym e) in
    let rest = among-from_key start m x in
    elim (Bool-cases (lex_ltb k start)) [
      | inl low ↦ rw low (
        (λ a. (inr (rest.0 a).0, (rest.0 a).1)),
        (λ p. elim (p.0) [
          | inl e ↦ let clash = sym (same e ∙ low) ∙ p.1 in absurd (true_ne_false clash)
          | inr a ↦ rest.1 (a, p.1)
        ]),
      )
      | inr high ↦ rw high (
        (λ a. elim a [ inl e ↦ (inl e, same e ∙ high) | inr b ↦ (inr (rest.0 b).0, (rest.0 b).1) ]),
        (λ p. elim (p.0) [ inl e ↦ inl e | inr a ↦ inr (rest.1 (a, p.1)) ]),
      )
    ]

all_from_key :
    (P : Entry → Type 0) (start : Bytes) (m : List Entry) → All P m → All P (from_key start m)
unfolding from_key
all_from_key P start [] h = tt
all_from_key P start ((k, v) ∷ m) (h, hs) = elim (Bool-cases (lex_ltb k start)) [
  | inl low ↦ rw low (all_from_key P start m hs)
  | inr high ↦ rw high (h, all_from_key P start m hs)
]

pub from_key-IsSorted : (start : Bytes) (m : List Entry) → IsSorted m → IsSorted (from_key start m)
unfolding from_key
from_key-IsSorted start [] h = tt
from_key-IsSorted start ((k, v) ∷ m) (h, hs) = elim (Bool-cases (lex_ltb k start)) [
  | inl low ↦ rw low (from_key-IsSorted start m hs)
  | inr high ↦
      rw high (all_from_key (λ e. lex_ltb k e.0 ≡ true) start m h, from_key-IsSorted start m hs)
]

-- Entries that each are of an event.
abbrev pub IsEntry : Entry → Type 0
IsEntry x = (e : ChangeEvent) × IsWireEvent e × (x ≡ entry e)

pub All-among : (P : Entry → Type 0) (m : List Entry) → ((x : Entry) → Among x m → P x) → All P m
All-among P [] h = tt
All-among P (x ∷ m) h = (h x (inl refl), All-among P m (λ y a. h y (inr a)))

pub events_of :
    (m : List Entry)
    → All IsEntry m
    → (es : List ChangeEvent) × (m ≡ map entry es) × All IsWireEvent es
events_of [] h = ([], refl, tt)
events_of (x ∷ m) h =
    let (e, w, is) = h.0 in
    let (es, entries, ws) = events_of m h.1 in
    (e ∷ es, ap (λ y. y ∷ m) is ∙ ap (λ l. entry e ∷ l) entries, (w, ws))

pub among_all :
    (P : ChangeEvent → Type 0) (es : List ChangeEvent) (e : ChangeEvent)
    → All P es
    → Among e es
    → P e
among_all P [] e h f = absurd f
among_all P (d ∷ es) e (h, hs) (inl de) = rw (← de) h
among_all P (d ∷ es) e (h, hs) (inr a) = among_all P es e hs a

-- Two events in range with one encoding are one.
pub encode_event_injective :
    (a b : ChangeEvent) → IsWireEvent a → IsWireEvent b → encode_event a ≡ encode_event b → a ≡ b
encode_event_injective a b ha hb same =
    let both : ok a ≡ decode_event (encode_event b) =
      sym (decode_event-encode_event a ha) ∙ ap decode_event same in
    let both' : ok a ≡ ok b = both ∙ decode_event-encode_event b hb in cc

pub among-entries :
    (es : List ChangeEvent) (e : ChangeEvent)
    → All IsWireEvent es
    → IsWireEvent e
    → Among (entry e) (map entry es) ↔ Among e es
among-entries [] e h w = ((λ f. absurd f), λ f. absurd f)
among-entries (d ∷ es) e (h, hs) w =
    let rest = among-entries es e hs w in
    (
      (λ a. elim a [
        | inl de ↦ inl (encode_event_injective d e h w (same_value d e de))
        | inr b ↦ inr (rest.0 b)
      ]),
      (λ a. elim a [ inl de ↦ inl (ap entry de) | inr b ↦ inr (rest.1 b) ]),
    )
  where
    same_value : (d e : ChangeEvent) → entry d ≡ entry e → encode_event d ≡ encode_event e
    same_value d e h = unfold entry in ap (λ x. x.1) h

pub latest-append :
    (k : Bytes) (xs ys : List ChangeEvent)
    → latest k (xs ++ ys)
      ≡ elim (latest k ys) as (λ _. Option ChangeEvent) [ some d ↦ some d | none ↦ latest k xs ]
unfolding latest
latest-append k [] ys = by_found (latest k ys)
  where
    by_found :
        (o : Option ChangeEvent)
        → o ≡ elim o as (λ _. Option ChangeEvent) [ some d ↦ some d | none ↦ none ]
    by_found none = refl
    by_found (some d) = refl
latest-append k (x ∷ xs) ys = rw (latest-append k xs ys) (by_found (latest k ys))
  where
    by_found :
        (o : Option ChangeEvent)
        → elim (elim o as (λ _. Option ChangeEvent) [ some d ↦ some d | none ↦ latest k xs ])
            as (λ _. Option ChangeEvent) [
              | some d ↦ some d
              | none ↦ if text_eq (make_key x) k then some x else none
            ]
          ≡ elim o as (λ _. Option ChangeEvent) [
            | some d ↦ some d
            | none ↦ elim (latest k xs) as (λ _. Option ChangeEvent) [
              | some d ↦ some d
              | none ↦ if text_eq (make_key x) k then some x else none
            ]
          ]
    by_found none = refl
    by_found (some d) = refl
