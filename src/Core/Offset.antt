-- ===== src/Core/Offset.antt =====
-- core/src/offset/registry.rs and manager.rs: the committed offset of each consumer.
pub mod Commits
pub mod Race
mod Tests
use nendi.Common.{
  ℕ, Bool, true, false, Option, none, some, List, [], ◌∷◌, Text, Dict, lookup, insert, remove,
  text_eq_instance, ltb, ◌==◌, if◌then◌else◌, length, map,
}
use nendi.Common.Cursor.{Outcome, ok, err}
use nendi.Shared.Lsn.{Lsn, zero_lsn, max_lsn, is_ahead_of, saturating_add}

-- `NendiError::OffsetRegression`.
pub record OffsetRegression : Type 0 where
  pub consumer : Text
  pub attempted : Lsn
  pub current : Lsn

abbrev pub OffsetRegistry : Type 0
OffsetRegistry = Dict Text Lsn

unfoldable pub get : Text → OffsetRegistry → Option Lsn
get consumer_id r = lookup consumer_id r

-- The test of `commit` on the offset that it has read: `some` is the error.
unfoldable pub regression : Text → Lsn → Option Lsn → Option OffsetRegression
regression consumer_id lsn none = none
regression consumer_id lsn (some current) =
    if is_ahead_of current lsn
    then some (record { consumer = consumer_id; attempted = lsn; current = current })
    else none

-- `commit` called by one thread at a time; an error leaves the registry as it was.
unfoldable pub commit : Text → Lsn → OffsetRegistry → Outcome OffsetRegression OffsetRegistry
commit consumer_id lsn r = elim (regression consumer_id lsn (get consumer_id r)) [
  | some e ↦ err e
  | none ↦ ok (insert consumer_id lsn r)
]

unfoldable pub unsubscribe : Text → OffsetRegistry → OffsetRegistry
unsubscribe consumer_id r = remove consumer_id r

-- The loop of `min_offset`.
unfoldable pub min_loop : Lsn → OffsetRegistry → Lsn
min_loop least [] = least
min_loop least ((_, lsn) ∷ r) = min_loop (if ltb lsn least then lsn else least) r

unfoldable pub min_offset : OffsetRegistry → Lsn
min_offset r = let least = min_loop max_lsn r in if least == max_lsn then zero_lsn else least

unfoldable pub consumer_ids : OffsetRegistry → List Text
consumer_ids r = map (λ p. p.0) r

unfoldable pub len : OffsetRegistry → ℕ
len r = length r

-- `OffsetManager` holds a registry and nothing else; its `commit`, `watermark` and
-- `unregister_consumer` are `commit`, `min_offset` and `unsubscribe`.
unfoldable pub resume_lsn : Text → OffsetRegistry → Lsn
resume_lsn consumer_id r = elim (get consumer_id r) [
  | none ↦ zero_lsn
  | some lsn ↦ saturating_add lsn 1
]

-- Only logs.
unfoldable pub register_consumer : Text → OffsetRegistry → OffsetRegistry
register_consumer consumer_id r = r
