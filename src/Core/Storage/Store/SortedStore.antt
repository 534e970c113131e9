-- ===== src/Core/Storage/Store/SortedStore.antt =====
-- A sorted list is a store: the laws of `KeyValueStore` can hold.
use nendi.Common.{
  ◌≡◌, ◌↔◌, ◌⊎◌, inl, inr, refl, sym, ap, ◌∙◌, Bool-cases, Option, none, some, List, [], ◌∷◌, Bytes,
  text_eq, text_eq_iff, if◌then◌else◌, map,
}
use nendi.Core.Storage.Store.{Entry, Among, IsSorted, last_put, from_key, KeyValueStore}
use nendi.Core.Storage.Store.SortedList.{put, put-IsSorted, among-put, clash}

none-ne-some : {v : Bytes} → none ≡ some v → ⊥
none-ne-some e = cc

some_injective : {v w : Bytes} → some v ≡ some w → v ≡ w
some_injective e = cc

unfoldable pub put_all : List Entry → List Entry → List Entry
put_all [] m = m
put_all ((k, v) ∷ puts) m = put_all puts (put k v m)

pub put_all-IsSorted : (puts m : List Entry) → IsSorted m → IsSorted (put_all puts m)
unfolding put_all
put_all-IsSorted [] m h = h
put_all-IsSorted ((k, v) ∷ puts) m h = put_all-IsSorted puts (put k v m) (put-IsSorted k v m h)

abbrev pub Left : Option Bytes → Bytes → Type 0 → Type 0
Left o v A = (o ≡ some v) ⊎ ((o ≡ none) × A)

pub among-put_all :
    (puts m : List Entry) (k' v' : Bytes)
    → IsSorted m
    → Among (k', v') (put_all puts m) ↔ Left (last_put k' puts) v' (Among (k', v') m)
unfolding put_all last_put
among-put_all [] m k' v' h =
    ((λ a. inr (refl, a)), (λ r. elim r [ inl e ↦ absurd (none-ne-some e) | inr q ↦ q.1 ]))
among-put_all ((k, v) ∷ puts) m k' v' h =
    by_later (last_put k' puts) (among-put_all puts (put k v m) k' v' (put-IsSorted k v m h))
  where
    here :
        Among (k', v') (put k v m)
        ↔ Left (if text_eq k k' then some v else none) v' (Among (k', v') m)
    here =
        let base = among-put k v m k' v' h in
        elim (Bool-cases (text_eq k k')) [
          | inl same ↦ rw same (
            (λ a. elim (base.0 a) [
              | inl p ↦ inl (ap some (p.1))
              | inr q ↦ absurd (clash q.0 same)
            ]),
            (λ r. elim r [
              | inl e ↦ base.1 (inl ((text_eq_iff k k').0 same, some_injective e))
              | inr q ↦ absurd (none-ne-some (sym q.0))
            ]),
          )
          | inr other ↦ rw other (
            (λ a. elim (base.0 a) [
              | inl p ↦ absurd (clash other ((text_eq_iff k k').1 p.0))
              | inr q ↦ inr (refl, q.1)
            ]),
            (λ r. elim r [ inl e ↦ absurd (none-ne-some e) | inr q ↦ base.1 (inr (other, q.1)) ]),
          )
        ]

    by_later :
        (o : Option Bytes)
        → Among (k', v') (put_all puts (put k v m)) ↔ Left o v' (Among (k', v') (put k v m))
        → Among (k', v') (put_all puts (put k v m))
          ↔ Left
              (elim o as (λ _. Option Bytes) [
                | some w ↦ some w
                | none ↦ if text_eq k k' then some v else none
              ])
              v'
              (Among (k', v') m)
    by_later none later = (
      (λ a. elim (later.0 a) [ inl e ↦ absurd (none-ne-some e) | inr q ↦ here.0 q.1 ]),
      (λ r. later.1 (inr (refl, here.1 r))),
    )
    by_later (some w) later = (
      (λ a. elim (later.0 a) [ inl e ↦ inl e | inr q ↦ absurd (none-ne-some (sym q.0)) ]),
      (λ r. elim r [ inl e ↦ later.1 (inl e) | inr q ↦ absurd (none-ne-some (sym q.0)) ]),
    )

pub unmap : List (Option Entry) → List Entry
unmap [] = []
unmap (none ∷ xs) = unmap xs
unmap (some x ∷ xs) = x ∷ unmap xs

pub unmap-map : (xs : List Entry) → unmap (map some xs) ≡ xs
unfolding unmap
unmap-map [] = refl
unmap-map (x ∷ xs) = ap (λ l. x ∷ l) (unmap-map xs)

abbrev pub sorted_store : KeyValueStore
sorted_store = record {
  Db = (m : List Entry) × IsSorted m;
  write = λ puts db. some (put_all puts db.0, put_all-IsSorted puts db.0 db.1);
  iterator = λ start db. map some (from_key start db.0);
  contents = λ db. db.0;
  sorted = λ db. db.1;
  contents-write = λ puts db db' e k v.
      let same : put_all puts db.0 ≡ db'.0 =
        ap (λ (o : Option ((m : List Entry) × IsSorted m)). elim o [ none ↦ [] | some d ↦ d.0 ])
          e in
      rw same at (among-put_all puts db.0 k v db.1);
  iterator_items = λ start db items e.
      sym (unmap-map items) ∙ sym (ap unmap e) ∙ unmap-map (from_key start db.0);
}
