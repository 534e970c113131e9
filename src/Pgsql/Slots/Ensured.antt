-- ===== src/Pgsql/Slots/Ensured.antt =====
-- A replication slot is there once `ensure_slot` has succeeded.
use nendi.Common.{
  Option-cases, ℕ, ◌≡◌, ◌⊎◌, inl, inr, refl, sym, ◌∙◌, arith, Bool, true, false, Bool-cases, ◌||◌,
  Option, none, some, List, [], ◌∷◌, Text, text_eq, All, if◌then◌else◌, leb, length, ◌≤◌, ◌&&◌,
  ◌==◌, text_eq_iff,
}
use nendi.Common.Cursor.{Outcome, ok, err, panic}
use nendi.Common.Effects.{◌>>=◌, pure}
use nendi.Shared.Lsn.{Lsn, from_pg_str}
use nendi.Pgsql.Client.{PgServer, PgError, asked, slot_exists, slot_exists_sql, positive_i64}
use nendi.Pgsql.Slots.{SlotManager, create_slot_sql, create_slot, ensure_slot}

unfoldable pub has : Text → List Text → Bool
has name [] = false
has name (s ∷ ss) = text_eq s name || has name ss

-- A slot's name may hold lower-case letters, digits and underscores, and is as long as the type
-- `name` has room for.
abbrev pub IsSlotName : Text → Type 0
IsSlotName name =
    (length name ≤ 63)
    × All (λ c. ((leb b'a' c && leb c b'z') || ((leb b'0' c && leb c b'9') || (c == b'_'))) ≡ true)
        name

-- What PostgreSQL's documentation says of the two queries for a name that is allowed, while no other
-- session creates or drops slots. The first one only reads. The second one answers after it has
-- created the slot; an error may have come before that or after, as when the connection is lost.
pub record SlotLaws (pg : PgServer) : Type 0 where
  pub slots : pg.Server → List Text
  pub exists_reads :
      (name : Text) (s : pg.Server) → slots (pg.query_one slot_exists_sql (name ∷ []) s).1 ≡ slots s
  pub exists_counts :
      (name : Text) (s : pg.Server) (row : pg.Row) (n : ℕ)
      → IsSlotName name
      → (pg.query_one slot_exists_sql (name ∷ []) s).0 ≡ some row
      → pg.try_get_int row 0 ≡ some n
      → positive_i64 n ≡ has name (slots s)
  pub create_fails :
      (name : Text) (s : pg.Server)
      → IsSlotName name
      → (pg.query_one (create_slot_sql name) [] s).0 ≡ none
      → (slots (pg.query_one (create_slot_sql name) [] s).1 ≡ slots s)
        ⊎ (slots (pg.query_one (create_slot_sql name) [] s).1 ≡ name ∷ slots s)
  pub create_adds :
      (name : Text) (s : pg.Server) (row : pg.Row)
      → IsSlotName name
      → (pg.query_one (create_slot_sql name) [] s).0 ≡ some row
      → slots (pg.query_one (create_slot_sql name) [] s).1 ≡ name ∷ slots s

has_first : (name : Text) (ss : List Text) → has name (name ∷ ss) ≡ true
unfolding has
has_first name ss = ground (arith, text_eq_iff name name)

module _ (pg : PgServer) (laws : SlotLaws pg) where
  slot_exists_lem :
      (name : Text) (s : pg.Server)
      → IsSlotName name
      → (laws.slots (slot_exists pg name s).1 ≡ laws.slots s)
        × ((b : Bool) → (slot_exists pg name s).0 ≡ ok b → b ≡ has name (laws.slots s))
  unfolding slot_exists asked
  slot_exists_lem name s allowed =
      let call = pg.query_one slot_exists_sql (name ∷ []) s in
      elim (Option-cases (call.0)) [
        | inl failed ↦ rw (failed, ◌>>=◌) (laws.exists_reads name s, λ b h. cc)
        | inr (row, found) ↦ elim (Option-cases (pg.try_get_int row 0)) [
          | inl bad ↦ rw (found, ◌>>=◌, bad) (laws.exists_reads name s, λ b h. cc)
          | inr (n, count) ↦
              rw (found, ◌>>=◌, count)
                (
                  laws.exists_reads name s,
                  λ b h. cc (laws.exists_counts name s row n allowed found count),
                )
        ]
      ]

  -- Either nothing was created and the call failed, or the slot was, whatever the call answered.
  abbrev Creates : SlotManager → pg.Server → Outcome PgError (Option Lsn) × pg.Server → Type 0
  Creates m s p =
      ((laws.slots p.1 ≡ laws.slots s) × ((o : Option Lsn) → p.0 ≡ ok o → ⊥))
      ⊎ ((laws.slots p.1 ≡ m.slot_name ∷ laws.slots s) × (m.auto_create ≡ true))

  create_slot_lem :
      (m : SlotManager) (s : pg.Server) → IsSlotName m.slot_name → Creates m s (create_slot pg m s)
  unfolding create_slot asked
  create_slot_lem m s allowed = elim (Bool-cases m.auto_create) [
    | inr off ↦ rw off (inl (refl, λ o h. cc))
    | inl on ↦
        let call = pg.query_one (create_slot_sql m.slot_name) [] s in
        elim (Option-cases (call.0)) [
          | inl failed ↦
              rw (on, failed, ◌>>=◌)
                (elim (laws.create_fails m.slot_name s allowed failed) [
                  | inl kept ↦ inl (kept, λ o h. cc)
                  | inr added ↦ inr (added, refl)
                ])
          | inr (row, made) ↦
              let added = laws.create_adds m.slot_name s row allowed made in
              elim (Option-cases (pg.try_get row 0)) [
                | inl bad ↦ rw (on, made, ◌>>=◌, bad) (inr (added, refl))
                | inr (text, got) ↦ elim (Option-cases (from_pg_str text)) [
                  | inl bad ↦ rw (on, made, ◌>>=◌, got, ◌>>=◌, bad) (inr (added, refl))
                  | inr (lsn, parsed) ↦ rw (on, made, ◌>>=◌, got, ◌>>=◌, parsed) (inr (added, refl))
                ]
              ]
        ]
  ]

  -- How `ensure_slot` may have gone.
  abbrev pub Ensures : SlotManager → pg.Server → Outcome PgError (Option Lsn) × pg.Server → Type 0
  Ensures m s p =
      ((o : Option Lsn) → p.0 ≡ ok o → has m.slot_name (laws.slots p.1) ≡ true)
      × ((laws.slots p.1 ≡ laws.slots s)
          ⊎ ((laws.slots p.1 ≡ m.slot_name ∷ laws.slots s)
              × (has m.slot_name (laws.slots s) ≡ false)
              × (m.auto_create ≡ true)))

  -- For a slot's name of at most 63 lower-case letters, digits and underscores, and while no other
  -- session creates or drops slots: if `ensure_slot` succeeds, the
  -- slot is there afterwards. However it ends, errors included that come after the slot was created,
  -- it leaves the server's slots as they were, or it has added this one slot, which was missing, and
  -- `auto_create` is set.
  pub ensure_slot_lem :
      (m : SlotManager) (s : pg.Server) → IsSlotName m.slot_name → Ensures m s (ensure_slot pg m s)
  unfolding ensure_slot
  ensure_slot_lem m s allowed =
      by_exists (slot_exists pg m.slot_name s) (slot_exists_lem m.slot_name s allowed)
    where
      by_created :
          (t : pg.Server) (p : Outcome PgError (Option Lsn) × pg.Server)
          → laws.slots t ≡ laws.slots s
          → has m.slot_name (laws.slots s) ≡ false
          → Creates m t p
          → Ensures m s p
      by_created t p same missing (inl (kept, failed)) =
          ((λ o h. absurd (failed o h)), inl (kept ∙ same))
      by_created t p same missing (inr (added, on)) = (
        (λ o h. rw added (has_first m.slot_name (laws.slots t))),
        inr (rw same at added, missing, on),
      )

      by_exists :
          (p : Outcome PgError Bool × pg.Server)
          → (laws.slots p.1 ≡ laws.slots s)
            × ((b : Bool) → p.0 ≡ ok b → b ≡ has m.slot_name (laws.slots s))
          → Ensures m s (elim (p.0) as (λ _. Outcome PgError (Option Lsn) × pg.Server) [
            | ok exists ↦ (if exists then pure none else create_slot pg m) p.1
            | err e ↦ (err e, p.1)
            | panic ↦ (panic, p.1)
          ])
      by_exists (ok true, t) (same, told) = ((λ o h. rw same (sym (told true refl))), inl same)
      by_exists (ok false, t) (same, told) =
          by_created t (create_slot pg m t) same (sym (told false refl))
            (create_slot_lem m t allowed)
      by_exists (err e, t) (same, told) = ((λ o h. cc), inl same)
      by_exists (panic, t) (same, told) = ((λ o h. cc), inl same)
