-- ===== src/Shared/Lsn/Order.antt =====
-- LSNs as big-endian bytes: what the storage keys rely on.
use nendi.Common.{◌≡◌, arith, lex_ltb, lex-be, from_be-be}
use nendi.Shared.Lsn.{Lsn, IsLsn, to_be_bytes, from_be_bytes, is_ahead_of}

-- Decoding the eight big-endian bytes of an LSN gives the LSN back.
pub from_be_bytes-to_be_bytes : (l : Lsn) → IsLsn l → from_be_bytes (to_be_bytes l) ≡ l
unfolding from_be_bytes to_be_bytes
from_be_bytes-to_be_bytes l h = from_be-be 8 l (omega arith)

-- Of two LSNs the first is ahead of the second exactly when its big-endian bytes come after the
-- second's in lexicographic order.
pub lex-to_be_bytes :
    (a b : Lsn) → IsLsn a → IsLsn b → lex_ltb (to_be_bytes b) (to_be_bytes a) ≡ is_ahead_of a b
unfolding to_be_bytes is_ahead_of
lex-to_be_bytes a b ha hb = lex-be 8 b a (omega arith) (omega arith)
