-- ===== src/Core/Offset/Race.antt =====
-- `commit` reads the offset, tests it and then inserts: three accesses to a map that other threads
-- use in between.
use nendi.Common.{
  ℕ, ◌<◌, ◌≡◌, refl, none, some, List, [], ◌∷◌, Text, get_elem?, set, insert, lookup-insert_self,
  text_eq_instance,
}
use nendi.Shared.Lsn.{Lsn}
use nendi.Core.Offset.{OffsetRegistry, OffsetRegression, get, regression}

-- A thread that calls `commit`: before it reads, between its test and its insert, and with the answer.
pub data Thread : Type 0 where
  calling : Text → Lsn → Thread
  passed : Text → Lsn → Thread
  answered_ok : Thread
  answered_err : OffsetRegression → Thread

pub record Shared : Type 0 where
  pub registry : OffsetRegistry
  pub threads : List Thread

pub data Step (s : Shared) : Shared → Type 0 where
  test_passes :
      (i : ℕ) (c : Text) (lsn : Lsn)
      → get_elem? s.threads i ≡ some (calling c lsn)
      → regression c lsn (get c s.registry) ≡ none
      → Step s (record s { threads = set s.threads i (passed c lsn) })
  test_fails :
      (i : ℕ) (c : Text) (lsn : Lsn) (e : OffsetRegression)
      → get_elem? s.threads i ≡ some (calling c lsn)
      → regression c lsn (get c s.registry) ≡ some e
      → Step s (record s { threads = set s.threads i (answered_err e) })
  insert_offset :
      (i : ℕ) (c : Text) (lsn : Lsn)
      → get_elem? s.threads i ≡ some (passed c lsn)
      → Step s
          (record { registry = insert c lsn s.registry; threads = set s.threads i answered_ok })

pub data Reach (s : Shared) : Shared → Type 0 where
  here : Reach s s
  next : {t u : Shared} → Reach s t → Step t u → Reach s u

abbrev pub two_commits : Text → Lsn → Lsn → OffsetRegistry → Shared
two_commits c low high r = record { registry = r; threads = calling c low ∷ calling c high ∷ [] }

-- Two threads that commit a lower and a higher LSN for a consumer without an offset can both be
-- answered `Ok` and leave the lower LSN as the committed offset.
pub two_commits_regress :
    (c : Text) (low high : Lsn) (r : OffsetRegistry)
    → low < high
    → get c r ≡ none
    → (s : Shared) × Reach (two_commits c low high r) s
      × (s.threads ≡ answered_ok ∷ answered_ok ∷ [])
      × (get c s.registry ≡ some low)
unfolding get regression
two_commits_regress c low high r lt fresh = (
  record { registry = insert c low (insert c high r); threads = answered_ok ∷ answered_ok ∷ [] },
  next
      (next
        (next (next here (test_passes 0 c low refl (rw fresh)))
          (test_passes 1 c high refl (rw fresh)))
        (insert_offset 1 c high refl))
      (insert_offset 0 c low refl),
  refl,
  lookup-insert_self c low (insert c high r),
)
