-- ===== src/Pgsql/Slots/Tests.antt =====
-- Slots on a server that keeps their names.
use nendi.Common.{
  ℕ, ◌+◌, ◌^◌, ◌≡◌, ◌≢◌, inl, inr, refl, arith, true, Bool-cases, Option, none, some, List, [], ◌∷◌,
  Text, codes, text_eq, split_once, split_once-append, drop, All-map, length, if◌then◌else◌,
}
use nendi.Pgsql.Client.{PgServer, slot_exists_sql, positive_i64}
use nendi.Pgsql.Client.Script.{string, int, Cells, cell_text, cell_int, cell_opt}
use nendi.Pgsql.Slots.{
  SlotManager, create_slot_sql, ensure_slot, within, warning, critical, above_warning, new,
  evaluate,
}
use nendi.Pgsql.Slots.Ensured.{has, IsSlotName, SlotLaws, Ensures, ensure_slot_lem}
use nendi.Pgsql.Slots.Lag.{Answers, evaluate_lem}
use nendi.Common.Float.{to_f64}

count_of : List Text → List Text → Cells
count_of [] s = []
count_of (name ∷ _) s = int (if has name s then 1 else 0) ∷ []

-- The name between the quotes.
create_named : Option (Text × Text) → List Text → Option Cells × List Text
create_named none s = (none, s)
create_named (some (name, _)) s =
    if has name s then (none, s) else (some (string (codes "0/16B3748") ∷ []), name ∷ s)

quoted_at : ℕ
quoted_at = length (codes "SELECT lsn FROM pg_create_logical_replication_slot('")

query_slots : Text → List Text → List Text → Option Cells × List Text
unfolding count_of create_named
query_slots sql params s =
    if text_eq sql slot_exists_sql
    then (some (count_of params s), s)
    else create_named (split_once b'\'' (drop quoted_at sql)) s

abbrev slot_server : PgServer
slot_server = record {
  Server = List Text;
  Row = Cells;
  query = λ _ _ s. (none, s);
  query_one = query_slots;
  execute = λ _ _ s. (none, s);
  try_get = cell_text;
  try_get_int = cell_int;
  try_get_opt = cell_opt;
}

query_slots-create :
    (name : Text) (s : List Text)
    → IsSlotName name
    → query_slots (create_slot_sql name) [] s ≡ create_named (some (name, codes ", 'pgoutput')")) s
unfolding query_slots create_slot_sql slot_exists_sql text_eq quoted_at
query_slots-create name s allowed =
    rw
      (split_once-append b'\'' name (codes ", 'pgoutput')")
        (All-map _ (λ c. c ≢ b'\'') (λ c h e. ground (arith, h, e)) name allowed.1))
      refl

counts :
    (name : Text) (s : List Text) (row : Cells) (n : ℕ)
    → (query_slots slot_exists_sql (name ∷ []) s).0 ≡ some row
    → cell_int row 0 ≡ some n
    → positive_i64 n ≡ has name s
unfolding query_slots slot_exists_sql text_eq count_of cell_int positive_i64
counts name s row n answered int_at =
    let row_is : int (if has name s then 1 else 0) ∷ [] ≡ row = cc in
    let n_is : some (if has name s then 1 else 0) ≡ some n = rw (← row_is) at int_at in
    let n_is' : (if has name s then 1 else 0) ≡ n = cc in ground arith

created :
    (name rest : Text) (s : List Text) (p : Option Cells × List Text)
    → p ≡ create_named (some (name, rest)) s
    → (p.0 ≡ none → p.1 ≡ s) × ((row : Cells) → p.0 ≡ some row → p.1 ≡ name ∷ s)
unfolding create_named
created name rest s p e = elim (Bool-cases (has name s)) [
  | inl there ↦ let is : p ≡ (none, s) = rw there at e in rw is ((λ h. refl), λ row h. cc)
  | inr missing ↦
      let is : p ≡ (some (string (codes "0/16B3748") ∷ []), name ∷ s) = rw missing at e in
      rw is ((λ h. cc), λ row h. refl)
]

slot_laws : SlotLaws slot_server
slot_laws = record {
  slots = λ s. s;
  exists_reads = λ name s. unfold query_slots slot_exists_sql text_eq in refl;
  exists_counts = λ name s row n allowed. counts name s row n;
  create_fails = λ name s allowed failed. inl (
      (created name (codes ", 'pgoutput')") s (query_slots (create_slot_sql name) [] s)
          (query_slots-create name s allowed)).0
        failed);
  create_adds = λ name s row allowed.
      (created name (codes ", 'pgoutput')") s (query_slots (create_slot_sql name) [] s)
          (query_slots-create name s allowed)).1
        row;
}

abbrev nendi_slot : SlotManager
nendi_slot = record { slot_name = codes "nendi_1"; auto_create = true }

ensure_slot_lem_example :
    Ensures slot_server slot_laws nendi_slot
      (codes "other" ∷ [])
      (ensure_slot slot_server nendi_slot (codes "other" ∷ []))
ensure_slot_lem_example =
    ensure_slot_lem slot_server slot_laws nendi_slot (codes "other" ∷ [])
      (omega arith, (refl, (refl, (refl, (refl, (refl, (refl, (refl, tt))))))))

-- A lag of 85 percent is no warning yet, here.
statuses :
    (evaluate 850 (new 1000) ≡ within 850)
    × ((evaluate 851 (new 1000) ≡ warning 851 1000)
        × (evaluate 1001 (new 1000) ≡ critical 1001 1000))
unfolding evaluate above_warning new to_f64
statuses = (refl, (refl, refl))

-- 2 ^ 53 + 1 and 2 ^ 53 + 3 lie between two numbers of 53 digits.
roundings : (to_f64 (2 ^ 53 + 1) ≡ 2 ^ 53) × (to_f64 (2 ^ 53 + 3) ≡ 2 ^ 53 + 4)
unfolding to_f64
roundings = (refl, refl)

evaluate_lem_example : Answers 900 1000
evaluate_lem_example = evaluate_lem 900 1000 (omega arith)
