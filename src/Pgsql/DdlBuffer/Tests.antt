-- ===== src/Pgsql/DdlBuffer/Tests.antt =====
-- The buffer's theorems at concrete changes.
use nendi.Common.{◌≡◌, arith, ◌&&◌, [], ◌∷◌, codes, leb, ltb}
use nendi.Shared.Lsn.{Lsn}
use nendi.Pgsql.DdlBuffer.{DdlKind, DdlChange, DdlBuffer, drain_up_to}
use nendi.Pgsql.DdlBuffer.Drains.{filter, drain_up_to_twice}

abbrev dropped_at : Lsn → DdlChange
dropped_at lsn = record {
  lsn = lsn;
  table = codes "public.orders";
  kind = DdlKind.drop_table;
  statement = codes "DROP TABLE orders";
}

drain_up_to_twice_example :
    let b : DdlBuffer = record {
      pending = dropped_at 30 ∷ (dropped_at 10 ∷ (dropped_at 20 ∷ []));
    } in
    let (first, b1) = drain_up_to 10 b in
    let (second, b2) = drain_up_to 25 b1 in
    (first ≡ filter (λ c. leb c.lsn 10) b.pending)
    × (second ≡ filter (λ c. ltb 10 c.lsn && leb c.lsn 25) b.pending)
    × (b2.pending ≡ filter (λ c. ltb 25 c.lsn) b.pending)
drain_up_to_twice_example =
    drain_up_to_twice 10 25
      (record { pending = dropped_at 30 ∷ (dropped_at 10 ∷ (dropped_at 20 ∷ [])) }) (omega arith)
