-- ===== src/Pgsql/Ack/Report.antt =====
-- What a status update reports of the positions that came before it.
use nendi.Common.{ℕ, ◌≡◌, refl, ap, ◌∙◌, arith, max, List, [], ◌∷◌}
use nendi.Shared.Lsn.{Lsn, is_ahead_of}
use nendi.Pgsql.Ack.{
  Instant, AckManager, new, advance_received, advance_confirmed, build_status_update,
}

pub data Call : Type 0 where
  received : Lsn → Call
  confirmed : Lsn → Call
  report : Instant → Call

unfoldable pub call : Call → AckManager → AckManager
call (received lsn) a = advance_received lsn a
call (confirmed lsn) a = advance_confirmed lsn a
call (report now) a = (build_status_update now a).1

unfoldable pub run : List Call → AckManager → AckManager
run [] a = a
run (c ∷ cs) a = run cs (call c a)

-- The highest position received, or confirmed, in these calls and at the start.
unfoldable pub highest_received : Lsn → List Call → Lsn
highest_received l [] = l
highest_received l (received m ∷ cs) = highest_received (max l m) cs
highest_received l (_ ∷ cs) = highest_received l cs

unfoldable pub highest_confirmed : Lsn → List Call → Lsn
highest_confirmed l [] = l
highest_confirmed l (confirmed m ∷ cs) = highest_confirmed (max l m) cs
highest_confirmed l (_ ∷ cs) = highest_confirmed l cs

advance_received-max :
    (lsn : Lsn) (a : AckManager)
    → ((advance_received lsn a).received_lsn ≡ max a.received_lsn lsn)
      × ((advance_received lsn a).confirmed_flush_lsn ≡ a.confirmed_flush_lsn)
unfolding advance_received is_ahead_of
advance_received-max lsn a = ground arith

advance_confirmed-max :
    (lsn : Lsn) (a : AckManager)
    → ((advance_confirmed lsn a).confirmed_flush_lsn ≡ max a.confirmed_flush_lsn lsn)
      × ((advance_confirmed lsn a).received_lsn ≡ a.received_lsn)
unfolding advance_confirmed is_ahead_of
advance_confirmed-max lsn a = ground arith

run_highest :
    (cs : List Call) (a : AckManager)
    → ((run cs a).received_lsn ≡ highest_received a.received_lsn cs)
      × ((run cs a).confirmed_flush_lsn ≡ highest_confirmed a.confirmed_flush_lsn cs)
unfolding run call highest_received highest_confirmed build_status_update
run_highest [] a = (refl, refl)
run_highest (received lsn ∷ cs) a =
    let (high, same) = advance_received-max lsn a in
    let (r, c) = run_highest cs (advance_received lsn a) in
    (r ∙ ap (λ l. highest_received l cs) high, c ∙ ap (λ l. highest_confirmed l cs) same)
run_highest (confirmed lsn ∷ cs) a =
    let (high, same) = advance_confirmed-max lsn a in
    let (r, c) = run_highest cs (advance_confirmed lsn a) in
    (r ∙ ap (λ l. highest_received l cs) same, c ∙ ap (λ l. highest_confirmed l cs) high)
run_highest (report now ∷ cs) a = run_highest cs (build_status_update now a).1

-- After any calls on a new manager, a status update reports the highest position received as written,
-- and the highest position confirmed as flushed and as applied.
pub build_status_update-run :
    (cs : List Call) (min_interval max_interval : ℕ) (start now : Instant)
    → (build_status_update now (run cs (new min_interval max_interval start))).0 ≡ record {
      write_lsn = highest_received 0 cs;
      flush_lsn = highest_confirmed 0 cs;
      apply_lsn = highest_confirmed 0 cs;
    }
unfolding build_status_update new
build_status_update-run cs min_interval max_interval start now =
    let (r, c) = run_highest cs (new min_interval max_interval start) in rw (r, c) refl
