-- ===== src/Pgsql/Stream/Tests.antt =====
-- The stream's theorems at concrete messages.
use nendi.Common.{◌≡◌, List, [], ◌∷◌, Bytes, none, some}
use nendi.Shared.Lsn.{Lsn}
use nendi.Pgsql.Decoding.Wire.{key_tuple, full_tuple}
use nendi.Pgsql.Decoding.Samples.{column_count, accounts, modifiers, old_cells, new_values}
use nendi.Pgsql.Stream.{new}
use nendi.Pgsql.Stream.Transcript.{ServerMessage, described, inserted, updated, deleted}
use nendi.Pgsql.Stream.Progress.{process_all, decode_all, last_ok, process_all-new}

-- A keep-alive that the decoder skips, and a Begin that is cut short.
abbrev messages : List (Lsn × Bytes)
messages = (70, b'k' ∷ []) ∷ ((80, b'B' ∷ (0 ∷ [])) ∷ [])

process_all-new_example :
    ((process_all column_count messages (new 60)).0 ≡ decode_all column_count [] messages)
    × ((process_all column_count messages (new 60)).1.last_processed_lsn
        ≡ last_ok column_count 60 messages (decode_all column_count [] messages))
process_all-new_example = process_all-new column_count messages 60

abbrev transcript : List (Lsn × ServerMessage)
transcript =
    (10, described 16385 accounts modifiers)
    ∷ (20, inserted 16385 old_cells)
    ∷ (30, updated 16385 (some (key_tuple old_cells)) new_values)
    ∷ (40, updated 16385 none old_cells)
    ∷ (50, deleted 16385 (full_tuple old_cells))
    ∷ []
