-- ===== src/Shared/Lsn/Tests.antt =====
-- Runs of the LSN functions, and the theorems at concrete LSNs.
use nendi.Common.{arith, lex_ltb, ◌≡◌, refl, codes, some, none, split_once}
use nendi.Shared.Lsn.{from_pg_str, to_pg_string, to_be_bytes, is_ahead_of}
use nendi.Shared.Lsn.Order.{lex-to_be_bytes}
use nendi.Shared.Lsn.PgText.{from_pg_str-to_pg_string}

parse_run : from_pg_str (codes "0/16B3740") ≡ some 23803712
unfolding from_pg_str split_once
parse_run = refl

print_run : to_pg_string 23803712 ≡ codes "0/16B3740"
unfolding to_pg_string
print_run = refl

overflow_run : from_pg_str (codes "0/116B37401") ≡ none
unfolding from_pg_str split_once
overflow_run = refl

from_pg_str-to_pg_string_example : from_pg_str (to_pg_string 23803712) ≡ some 23803712
from_pg_str-to_pg_string_example = from_pg_str-to_pg_string 23803712 (omega arith)

lex-to_be_bytes_example : lex_ltb (to_be_bytes 255) (to_be_bytes 256) ≡ is_ahead_of 256 255
lex-to_be_bytes_example = lex-to_be_bytes 256 255 (omega arith) (omega arith)
