-- ===== src/Pgsql/Ack/Tests.antt =====
-- The acknowledgement theorems at concrete positions.
use nendi.Common.{◌-◌, ◌≤◌, ◌≡◌, ◌↔◌, ◌⊎◌, true, [], ◌∷◌}
use nendi.Pgsql.Ack.{new, should_ack, build_status_update}
use nendi.Pgsql.Ack.Report.{
  received, confirmed, report, run, highest_received, highest_confirmed, build_status_update-run,
}
use nendi.Pgsql.Ack.Timing.{advance_all, any_news, should_ack_iff}

build_status_update-run_example :
    let calls = received 90 ∷ (confirmed 40 ∷ (received 70 ∷ (report 5 ∷ (confirmed 90 ∷ [])))) in
    (build_status_update 9 (run calls (new 1 10 0))).0 ≡ record {
      write_lsn = highest_received 0 calls;
      flush_lsn = highest_confirmed 0 calls;
      apply_lsn = highest_confirmed 0 calls;
    }
build_status_update-run_example =
    build_status_update-run
      (received 90 ∷ (confirmed 40 ∷ (received 70 ∷ (report 5 ∷ (confirmed 90 ∷ []))))) 1 10 0 9

should_ack_iff_example :
    let b = (build_status_update 100 (new 2 10 0)).1 in
    (should_ack 103 (advance_all ((true, 7) ∷ []) b) ≡ true)
    ↔ ((10 ≤ 103 - 100) ⊎ ((any_news 0 0 ((true, 7) ∷ []) ≡ true) × (2 ≤ 103 - 100)))
unfolding new
should_ack_iff_example = should_ack_iff (new 2 10 0) 100 103 ((true, 7) ∷ [])
