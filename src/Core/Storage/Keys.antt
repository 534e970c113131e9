-- ===== src/Core/Storage/Keys.antt =====
-- core/src/storage/rocks/tenant.rs, `make_key`: the key of an event.
use nendi.Common.{
  length-append, ◌++◌, ◌≡◌, ◌<◌, ◌^◌, ◌∙◌, sym, arith, Bytes, be, lex_ltb, lex-append, lex-be,
  text_eq-be, length-be, ltb, ◌==◌, ◌&&◌, ◌||◌, take, take-append, length, ap, ap,
}
use nendi.Shared.Lsn.{to_be_bytes}
use nendi.Shared.Event.{ChangeEvent}

unfoldable pub make_key : ChangeEvent → Bytes
make_key e = to_be_bytes e.lsn ++ be 4 e.xid

-- The two fields that a key is made of, in the ranges of `u64` and `u32`.
pub record IsKeyed (e : ChangeEvent) : Type 0 where
  pub lsn : e.lsn < 2 ^ 64
  pub xid : e.xid < 2 ^ 32

-- Keys are ordered lexicographically as their events are by LSN, and by transaction id within one LSN.
pub lex-make_key :
    (a b : ChangeEvent)
    → IsKeyed a
    → IsKeyed b
    → lex_ltb (make_key a) (make_key b) ≡ (ltb a.lsn b.lsn || (a.lsn == b.lsn && ltb a.xid b.xid))
unfolding make_key to_be_bytes
lex-make_key a b ha hb =
    lex-append (be 8 a.lsn) (be 8 b.lsn) (be 4 a.xid) (be 4 b.xid)
      (length-be 8 a.lsn ∙ sym (length-be 8 b.lsn))
    ∙ rw (
      lex-be 8 a.lsn b.lsn ha.lsn hb.lsn,
      text_eq-be 8 a.lsn b.lsn ha.lsn hb.lsn,
      lex-be 4 a.xid b.xid ha.xid hb.xid,
    )

-- The first eight bytes of a key are those of the LSN.
pub take-make_key : (e : ChangeEvent) → take 8 (make_key e) ≡ to_be_bytes e.lsn
unfolding make_key to_be_bytes
take-make_key e =
    ap (λ n. take n (be 8 e.lsn ++ be 4 e.xid)) (sym (length-be 8 e.lsn))
    ∙ take-append (be 8 e.lsn) (be 4 e.xid)

pub length-make_key : (e : ChangeEvent) → length (make_key e) ≡ 12
unfolding make_key to_be_bytes
length-make_key e = omega (arith, length-append {0} (be 8 e.lsn) (be 4 e.xid), length-be)
