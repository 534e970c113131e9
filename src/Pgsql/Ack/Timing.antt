-- ===== src/Pgsql/Ack/Timing.antt =====
-- When a status update is due.
use nendi.Common.{
  ◌-◌, ◌≤◌, ◌≡◌, ap, ◌∙◌, ◌↔◌, ◌⊎◌, arith, max, Bool, true, false, ◌||◌, List, [], ◌∷◌, ltb,
}
use nendi.Shared.Lsn.{Lsn, is_ahead_of}
use nendi.Pgsql.Ack.{
  Instant, AckManager, should_ack, build_status_update, advance_received, advance_confirmed,
}

-- Positions that came in after a status update: the flag says which call it was.
unfoldable pub advance_all : List (Bool × Lsn) → AckManager → AckManager
advance_all [] a = a
advance_all ((true, lsn) ∷ ls) a = advance_all ls (advance_received lsn a)
advance_all ((false, lsn) ∷ ls) a = advance_all ls (advance_confirmed lsn a)

-- One of them was ahead of the highest before it; the first two arguments are the highest received
-- and the highest confirmed at the start.
unfoldable pub any_news : Lsn → Lsn → List (Bool × Lsn) → Bool
any_news r c [] = false
any_news r c ((true, lsn) ∷ ls) = ltb r lsn || any_news (max r lsn) c ls
any_news r c ((false, lsn) ∷ ls) = ltb c lsn || any_news r (max c lsn) ls

advance_received-dirty :
    (lsn : Lsn) (a : AckManager)
    → ((advance_received lsn a).dirty ≡ (a.dirty || is_ahead_of lsn a.received_lsn))
      × ((advance_received lsn a).received_lsn ≡ max a.received_lsn lsn)
      × ((advance_received lsn a).confirmed_flush_lsn ≡ a.confirmed_flush_lsn)
      × ((advance_received lsn a).last_ack_time ≡ a.last_ack_time)
      × ((advance_received lsn a).min_interval ≡ a.min_interval)
      × ((advance_received lsn a).max_interval ≡ a.max_interval)
unfolding advance_received is_ahead_of
advance_received-dirty lsn a = ground arith

advance_confirmed-dirty :
    (lsn : Lsn) (a : AckManager)
    → ((advance_confirmed lsn a).dirty ≡ (a.dirty || is_ahead_of lsn a.confirmed_flush_lsn))
      × ((advance_confirmed lsn a).received_lsn ≡ a.received_lsn)
      × ((advance_confirmed lsn a).confirmed_flush_lsn ≡ max a.confirmed_flush_lsn lsn)
      × ((advance_confirmed lsn a).last_ack_time ≡ a.last_ack_time)
      × ((advance_confirmed lsn a).min_interval ≡ a.min_interval)
      × ((advance_confirmed lsn a).max_interval ≡ a.max_interval)
unfolding advance_confirmed is_ahead_of
advance_confirmed-dirty lsn a = ground arith

advance_all-dirty :
    (ls : List (Bool × Lsn)) (a : AckManager)
    → ((advance_all ls a).dirty ≡ (a.dirty || any_news a.received_lsn a.confirmed_flush_lsn ls))
      × ((advance_all ls a).last_ack_time ≡ a.last_ack_time)
      × ((advance_all ls a).min_interval ≡ a.min_interval)
      × ((advance_all ls a).max_interval ≡ a.max_interval)
unfolding advance_all any_news is_ahead_of
advance_all-dirty [] a = ground arith
advance_all-dirty ((true, lsn) ∷ ls) a =
    let (dirty, r, c, t, i, j) = advance_received-dirty lsn a in
    ground (
      arith,
      dirty,
      t,
      i,
      j,
      advance_all-dirty ls (advance_received lsn a),
      ap (λ x. any_news x (advance_received lsn a).confirmed_flush_lsn ls) r
          ∙ ap (λ x. any_news (max a.received_lsn lsn) x ls) c,
    )
advance_all-dirty ((false, lsn) ∷ ls) a =
    let (dirty, r, c, t, i, j) = advance_confirmed-dirty lsn a in
    ground (
      arith,
      dirty,
      t,
      i,
      j,
      advance_all-dirty ls (advance_confirmed lsn a),
      ap (λ x. any_news x (advance_confirmed lsn a).confirmed_flush_lsn ls) r
          ∙ ap (λ x. any_news a.received_lsn x ls) c,
    )

-- After a status update at a time, and whatever positions came in since, the next one is due exactly
-- when the longest interval has passed, or when the shortest has and one of the positions was news.
pub should_ack_iff :
    (a : AckManager) (sent now : Instant) (ls : List (Bool × Lsn))
    → let b = (build_status_update sent a).1 in
      (should_ack now (advance_all ls b) ≡ true) ↔ (
        (a.max_interval ≤ now - sent)
        ⊎ ((any_news a.received_lsn a.confirmed_flush_lsn ls ≡ true)
            × (a.min_interval ≤ now - sent)))
unfolding should_ack build_status_update
should_ack_iff a sent now ls = ground (arith, advance_all-dirty ls (build_status_update sent a).1)
