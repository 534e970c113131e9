-- ===== src/Core/Storage/Store/SortedList.antt =====
-- Puts into sorted lists of entries.
use nendi.Common.{
  ◌≡◌, ◌↔◌, ◌⊎◌, inl, inr, refl, sym, ap, ◌∙◌, arith, Bool, true, false, Bool-cases, List, [], ◌∷◌,
  Bytes, lex_ltb, text_eq, text_eq_iff, if◌then◌else◌, All,
}
use nendi.Core.Storage.Store.{Entry, Among, IsSorted}

lex_trans : (xs ys zs : Bytes) → lex_ltb xs ys ≡ true → lex_ltb ys zs ≡ true → lex_ltb xs zs ≡ true
unfolding lex_ltb
lex_trans [] [] zs h i = cc
lex_trans [] (y ∷ ys) [] h i = cc
lex_trans [] (y ∷ ys) (z ∷ zs) h i = refl
lex_trans (x ∷ xs) [] zs h i = cc
lex_trans (x ∷ xs) (y ∷ ys) [] h i = cc
lex_trans (x ∷ xs) (y ∷ ys) (z ∷ zs) h i = ground (arith, lex_trans xs ys zs)

lex_irrefl : (xs : Bytes) → lex_ltb xs xs ≡ false
unfolding lex_ltb
lex_irrefl [] = refl
lex_irrefl (x ∷ xs) = ground (arith, lex_irrefl xs)

lex_total : (xs ys : Bytes) → lex_ltb xs ys ≡ false → text_eq xs ys ≡ false → lex_ltb ys xs ≡ true
unfolding lex_ltb text_eq
lex_total [] [] h i = cc
lex_total [] (y ∷ ys) h i = cc
lex_total (x ∷ xs) [] h i = refl
lex_total (x ∷ xs) (y ∷ ys) h i = ground (arith, lex_total xs ys)

unfoldable pub put : Bytes → Bytes → List Entry → List Entry
put k v [] = (k, v) ∷ []
put k v ((j, w) ∷ m) =
    let rest = put k v m in
    if lex_ltb j k then (j, w) ∷ rest else if text_eq j k then (k, v) ∷ m else (k, v) ∷ ((j, w) ∷ m)

all_put :
    (P : Entry → Type 0) (k v : Bytes) (m : List Entry) → P (k, v) → All P m → All P (put k v m)
unfolding put
all_put P k v [] h hs = (h, tt)
all_put P k v ((j, w) ∷ m) h (hj, hs) = elim (Bool-cases (lex_ltb j k)) [
  | inl low ↦ rw low (hj, all_put P k v m h hs)
  | inr not_low ↦ elim (Bool-cases (text_eq j k)) [
    | inl same ↦ rw (not_low, if◌then◌else◌) (rw same (h, hs))
    | inr other ↦ rw (not_low, if◌then◌else◌) (rw other (h, (hj, hs)))
  ]
]

all_weaken : (P Q : Entry → Type 0) (m : List Entry) → ((e : Entry) → P e → Q e) → All P m → All Q m
all_weaken P Q [] f h = tt
all_weaken P Q (x ∷ m) f (h, hs) = (f x h, all_weaken P Q m f hs)

pub put-IsSorted : (k v : Bytes) (m : List Entry) → IsSorted m → IsSorted (put k v m)
unfolding put
put-IsSorted k v [] h = (tt, tt)
put-IsSorted k v ((j, w) ∷ m) (h, hs) = elim (Bool-cases (lex_ltb j k)) [
  | inl low ↦ rw low (all_put (λ e. lex_ltb j e.0 ≡ true) k v m low h, put-IsSorted k v m hs)
  | inr not_low ↦ elim (Bool-cases (text_eq j k)) [
    | inl same ↦
        let jk : j ≡ k = (text_eq_iff j k).0 same in
        rw (not_low, if◌then◌else◌) (rw same (rw jk at h, hs))
    | inr other ↦
        let kj = lex_total j k not_low other in
        rw (not_low, if◌then◌else◌)
          (rw other (
            (
              kj,
              all_weaken (λ e. lex_ltb j e.0 ≡ true) (λ e. lex_ltb k e.0 ≡ true) m
                  (λ e le. lex_trans k j e.0 kj le) h,
            ),
            (h, hs),
          ))
  ]
]

-- No entry of a sorted list has a key that all are past.
none_below : (k v : Bytes) (m : List Entry) → All (λ e. lex_ltb k e.0 ≡ true) m → Among (k, v) m → ⊥
none_below k v [] h a = a
none_below k v ((j, w) ∷ m) (h, hs) (inl e) =
    let jk : j ≡ k = ap (λ x. x.0) e in
    let no : lex_ltb k k ≡ true = rw jk at h in let no' : lex_ltb k k ≡ false = lex_irrefl k in cc
none_below k v ((j, w) ∷ m) (h, hs) (inr a) = none_below k v m hs a

pub clash : {b : Bool} → b ≡ false → b ≡ true → ⊥
clash h i = cc

-- The entries after a put: the new one, and the old ones under other keys.
abbrev pub After : Bytes → Bytes → List Entry → Bytes → Bytes → Type 0
After k v m k' v' = ((k ≡ k') × (v ≡ v')) ⊎ ((text_eq k k' ≡ false) × Among (k', v') m)

apart :
    (k k' v' : Bytes) (m : List Entry)
    → All (λ e. lex_ltb k e.0 ≡ true) m
    → Among (k', v') m
    → text_eq k k' ≡ false
apart k k' v' m h a = elim (Bool-cases (text_eq k k')) [
  | inl same ↦
      let e : k' ≡ k = sym ((text_eq_iff k k').0 same) in absurd (none_below k v' m h (rw e at a))
  | inr other ↦ other
]

apart_below : (j k k' : Bytes) → lex_ltb j k ≡ true → j ≡ k' → text_eq k k' ≡ false
apart_below j k k' low jk = elim (Bool-cases (text_eq k k')) [
  | inl same ↦
      let e : k ≡ j = (text_eq_iff k k').0 same ∙ sym jk in
      let no : lex_ltb j j ≡ true = ap (lex_ltb j) (sym e) ∙ low in
      let no' : lex_ltb j j ≡ false = lex_irrefl j in cc
  | inr other ↦ other
]

-- The new entry in front of those that have other keys.
front :
    (k v k' v' : Bytes) (m old : List Entry)
    → (Among (k', v') m → (text_eq k k' ≡ false) × Among (k', v') old)
    → ((text_eq k k' ≡ false) → Among (k', v') old → Among (k', v') m)
    → Among (k', v') ((k, v) ∷ m) ↔ After k v old k' v'
front k v k' v' m old into back = (
  (λ a. elim a [ inl e ↦ inl (ap (λ x. x.0) e, ap (λ x. x.1) e) | inr b ↦ inr (into b) ]),
  (λ r. elim r [ inl p ↦ inl (λ i. (p.0 i, p.1 i)) | inr q ↦ inr (back q.0 q.1) ]),
)

pub among-put :
    (k v : Bytes) (m : List Entry) (k' v' : Bytes)
    → IsSorted m
    → Among (k', v') (put k v m) ↔ After k v m k' v'
unfolding put
among-put k v [] k' v' h = front k v k' v' [] [] (λ f. absurd f) (λ _ f. f)
among-put k v ((j, w) ∷ m) k' v' (h, hs) = elim (Bool-cases (lex_ltb j k)) [
  | inl low ↦
      let rest = among-put k v m k' v' hs in
      rw low (
        (λ a. elim a [
          | inl e ↦ inr (apart_below j k k' low (ap (λ x. x.0) e), inl e)
          | inr b ↦ elim (rest.0 b) [ inl p ↦ inl p | inr q ↦ inr (q.0, inr (q.1)) ]
        ]),
        (λ r. elim r [
          | inl p ↦ inr (rest.1 (inl p))
          | inr q ↦ elim (q.1) [ inl e ↦ inl e | inr b ↦ inr (rest.1 (inr (q.0, b))) ]
        ]),
      )
  | inr not_low ↦ elim (Bool-cases (text_eq j k)) [
    | inl same ↦
        let jk : j ≡ k = (text_eq_iff j k).0 same in
        let above : All (λ e. lex_ltb k e.0 ≡ true) m = rw jk at h in
        rw (not_low, if◌then◌else◌)
          (rw same (
            front k v k' v' m ((j, w) ∷ m) (λ a. (apart k k' v' m above a, inr a))
              (λ ne a. elim a [
                | inl e ↦
                    let kk : k ≡ k' = sym jk ∙ ap (λ x. x.0) e in
                    let eq : text_eq k k' ≡ true = (text_eq_iff k k').1 kk in absurd (clash ne eq)
                | inr b ↦ b
              ])))
    | inr other ↦
        let kj = lex_total j k not_low other in
        let above : All (λ e. lex_ltb k e.0 ≡ true) m =
          all_weaken (λ e. lex_ltb j e.0 ≡ true) (λ e. lex_ltb k e.0 ≡ true) m
            (λ e le. lex_trans k j e.0 kj le) h in
        rw (not_low, if◌then◌else◌)
          (rw other (
            front k v k' v' ((j, w) ∷ m) ((j, w) ∷ m)
              (λ a. (apart k k' v' ((j, w) ∷ m) (kj, above) a, a)) (λ _ a. a)))
  ]
]
