-- ===== src/Core/Storage/Tests.antt =====
-- The storage's theorems at concrete events.
use nendi.Common.{◌≡◌, refl, arith, true, none, some, [], ◌∷◌, codes, lookup, text_eq}
use nendi.Shared.Lsn.{zero_lsn}
use nendi.Shared.Event.Samples.{order_at}
use nendi.Core.Offset.{OffsetRegistry, get, min_offset, resume_lsn, register_consumer, min_loop}
use nendi.Core.Storage.Keys.{make_key}
use nendi.Core.Storage.Gc.{filter, new_filter, discard, GcScheduler}
use nendi.Core.Storage.Gc.Safety.{registered_consumer_loses}
use nendi.Core.Storage.Filter.{ReadFilter, accept, key_might_match}
use nendi.Core.Storage.Filter.Prefix.{key_might_match_sound}

abbrev two_consumers : OffsetRegistry
two_consumers = (codes "billing", 40) ∷ (codes "audit", 70) ∷ []

audit_offset : get (codes "audit") two_consumers ≡ some 70
unfolding get lookup text_eq
audit_offset = refl

fresh_consumer : get (codes "fresh") two_consumers ≡ none
unfolding get lookup text_eq
fresh_consumer = refl

registered_consumer_loses_example :
    (resume_lsn (codes "fresh") (register_consumer (codes "fresh") two_consumers) ≡ zero_lsn)
    × (filter
          (new_filter (min_offset (register_consumer (codes "fresh") two_consumers)))
          (make_key (order_at 39 1))
        ≡ discard)
registered_consumer_loses_example =
    registered_consumer_loses two_consumers (codes "fresh") (order_at 39 1) fresh_consumer
      (unfold min_offset min_loop in omega arith) (unfold min_offset min_loop in omega arith)

abbrev scheduler : GcScheduler
scheduler = record { tracker = two_consumers; last_gc_watermark = 30; gc_runs = 1 }

abbrev orders_only : ReadFilter
orders_only = record { tables = some (codes "public.orders" ∷ []); min_lsn = 5; max_lsn = 9 }

key_might_match_sound_example :
    (accept (order_at 7 1) orders_only ≡ true
      → key_might_match (make_key (order_at 7 1)) orders_only ≡ true)
    × (orders_only.tables ≡ none
        → key_might_match (make_key (order_at 7 1)) orders_only ≡ accept (order_at 7 1) orders_only)
key_might_match_sound_example = key_might_match_sound (order_at 7 1) orders_only (omega arith)
