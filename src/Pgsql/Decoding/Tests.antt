-- ===== src/Pgsql/Decoding/Tests.antt =====
-- The decoder's theorems at concrete messages.
use nendi.Common.{◌≡◌, ◌≢◌, refl, arith, none, some, [], ◌∷◌, nat_eq, codes}
use nendi.Common.Cursor.{ok, panic}
use nendi.Shared.Event.{OpType}
use nendi.Pgsql.Decoding.Wire.{old_values, full_tuple, row_of, delete_message}
use nendi.Pgsql.Decoding.{event_of, decode}
use nendi.Pgsql.Decoding.NoPanic.{decode-ne-panic}
use nendi.Pgsql.Decoding.Messages.{decode-delete_message}
use nendi.Pgsql.Decoding.Context.{IsBare, decode-IsBare}
use nendi.Pgsql.Decoding.Samples.{
  column_count, accounts, known, old_cells, old_row-IsTuple, is_known,
}

-- The prefix of a binary value is a backslash and an x.
hex_prefix : codes "\\x" ≡ 92 ∷ (120 ∷ [])
hex_prefix = refl

delete_runs :
    decode column_count known 90 (delete_message 16385 (full_tuple old_cells))
    ≡ ok (
      some (
          event_of column_count 90 OpType.delete accounts none
            (some (record { columns = row_of accounts.columns old_cells }))),
      known,
    )
unfolding old_values
delete_runs =
    decode-delete_message column_count known 90 16385 accounts (full_tuple old_cells) (omega arith)
      is_known old_row-IsTuple

-- An Insert that ends inside its relation id.
decode-ne-panic_example : decode column_count known 90 (b'I' ∷ (0 ∷ (0 ∷ []))) ≢ panic
decode-ne-panic_example = decode-ne-panic column_count known 90 (b'I' ∷ (0 ∷ (0 ∷ [])))

decode-IsBare_example : IsBare 90 (
    event_of column_count 90 OpType.delete accounts none
      (some (record { columns = row_of accounts.columns old_cells })))
decode-IsBare_example =
    decode-IsBare column_count known 90 (delete_message 16385 (full_tuple old_cells)) _ known
      delete_runs
