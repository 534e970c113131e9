-- ===== src/Core/Pipeline/Batch.antt =====
-- core/src/pipeline/batch.rs: the batch of events that is written at once.
pub mod Bounds
use nendi.Common.{
  ◌≡◌, ◌≢◌, refl, ℕ, Bool, true, false, List, [], ◌∷◌, ◌++◌, length, ltb, if◌then◌else◌, add_u64,
  fits_capacity,
}
use nendi.Common.Cursor.{Outcome, ok, panic}
use nendi.Shared.Lsn.{Lsn, zero_lsn}
use nendi.Shared.Lsn
use nendi.Shared.Event.{ChangeEvent, estimated_size}

pub record WriteBatch : Type 0 where
  pub events : List ChangeEvent
  pub min_lsn : Lsn
  pub max_lsn : Lsn
  pub total_bytes : ℕ

-- `clear` gives it too.
abbrev pub new : WriteBatch
new = record { events = []; min_lsn = Lsn.max_lsn; max_lsn = zero_lsn; total_bytes = 0 }

-- Room for `cap` events, of which the bytes may overflow an `isize`.
unfoldable pub with_capacity : ℕ → ℕ → Outcome ⊥ WriteBatch
with_capacity size_of_event cap = if fits_capacity size_of_event cap then ok new else panic

-- `size_of_event` is the parameter of `estimated_size`.
unfoldable pub push : ℕ → ChangeEvent → WriteBatch → WriteBatch
push size_of_event event b = record {
  events = b.events ++ (event ∷ []);
  min_lsn = if ltb event.lsn b.min_lsn then event.lsn else b.min_lsn;
  max_lsn = if ltb b.max_lsn event.lsn then event.lsn else b.max_lsn;
  total_bytes = add_u64 b.total_bytes (estimated_size size_of_event event);
}

unfoldable pub len : WriteBatch → ℕ
len b = length b.events

is_nil : List ChangeEvent → Bool
is_nil [] = true
is_nil (_ ∷ _) = false

unfoldable pub is_empty : WriteBatch → Bool
unfolding is_nil
is_empty b = is_nil b.events

pub ne-nil_of_not_empty : (b : WriteBatch) → is_empty b ≡ false → b.events ≢ []
unfolding is_empty
ne-nil_of_not_empty b h e = let q : is_nil b.events ≡ true = rw e refl in cc

pub eq-nil_of_empty : (b : WriteBatch) → is_empty b ≡ true → b.events ≡ []
unfolding is_empty
eq-nil_of_empty b h = by_events b.events h
  where
    by_events : (es : List ChangeEvent) → is_nil es ≡ true → es ≡ []
    by_events [] h = refl
    by_events (x ∷ es) h = cc
