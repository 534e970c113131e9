-- ===== src/Http/Dlq/Tests.antt =====
-- The dead letter queue at concrete entries.
use nendi.Common.{ℕ, ◌^◌, ◌-◌, ◌≡◌, refl, arith, [], ◌∷◌, codes}
use nendi.Shared.Event.Samples.{order_at}
use nendi.Common.Cursor.{ok, panic}
use nendi.Http.Dlq.{DlqEntry, DeadLetterQueue, new, push}
use nendi.Http.Dlq.Newest.{push_entry, push_entries, newest, queue-push_entries}

abbrev failed_at : ℕ → DlqEntry
failed_at t = record {
  event = order_at t 1;
  error = codes "timeout";
  attempts = 3;
  timestamp_us = t;
}

queue-push_entries_example :
    (d : DeadLetterQueue) × (new 240 2 ≡ ok d)
    × ((push_entries (failed_at 1 ∷ (failed_at 2 ∷ (failed_at 3 ∷ []))) d).queue
        ≡ newest 2 (failed_at 1 ∷ (failed_at 2 ∷ (failed_at 3 ∷ []))))
queue-push_entries_example =
    queue-push_entries 240 2 (failed_at 1 ∷ (failed_at 2 ∷ (failed_at 3 ∷ []))) (omega arith)
      (omega arith)

-- With no room at all one entry is kept.
no_room :
    (push_entries
      (failed_at 1 ∷ (failed_at 2 ∷ []))
      (record { queue = []; max_size = 0; total_entries = 0 })).queue
    ≡ failed_at 2 ∷ []
unfolding push_entries push_entry push
no_room = refl

too_large : new 240 (2 ^ 64 - 1) ≡ panic
unfolding new
too_large = refl
