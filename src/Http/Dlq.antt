-- ===== src/Http/Dlq.antt =====
-- http/src/egress/webhook/dlq.rs: the queue of events whose delivery failed.
pub mod Newest
mod Tests
use nendi.Common.{
  ℕ, Text, Bool, true, false, List, [], ◌∷◌, ◌++◌, length, drop, leb, ◌==◌, if◌then◌else◌, add_u64,
  fits_capacity,
}
use nendi.Common.Cursor.{Outcome, ok, panic}
use nendi.Shared.Event.{ChangeEvent}

pub record DlqEntry : Type 0 where
  pub event : ChangeEvent
  pub error : Text
  pub attempts : ℕ
  pub timestamp_us : ℕ

pub record DeadLetterQueue : Type 0 where
  pub queue : List DlqEntry
  pub max_size : ℕ
  pub total_entries : ℕ

-- The queue is made with room for `max_size` entries, which panics if their bytes overflow an
-- `isize`. `size_of_entry` is `size_of::<DlqEntry>()`, which the compiler chooses.
unfoldable pub new : ℕ → ℕ → Outcome ⊥ DeadLetterQueue
new size_of_entry max_size =
    if fits_capacity size_of_entry max_size
    then ok (record { queue = []; max_size = max_size; total_entries = 0 })
    else panic

-- `now` is the wall clock's time.
unfoldable pub push : ℕ → ChangeEvent → Text → ℕ → DeadLetterQueue → DeadLetterQueue
push now event error attempts d =
    let queue = if leb d.max_size (length d.queue) then drop 1 d.queue else d.queue in
    record d {
      queue =
          queue
          ++ (record { event = event; error = error; attempts = attempts; timestamp_us = now }
              ∷ []);
      total_entries = add_u64 d.total_entries 1;
    }

unfoldable pub drain_all : DeadLetterQueue → List DlqEntry × DeadLetterQueue
drain_all d = (d.queue, record d { queue = [] })

unfoldable pub len : DeadLetterQueue → ℕ
len d = length d.queue

unfoldable pub is_empty : DeadLetterQueue → Bool
is_empty d = length d.queue == 0
