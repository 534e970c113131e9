-- ===== src/Http/Flow/Range.antt =====
-- Which events a consumer is replayed.
use nendi.Common.{
  ◌<◌, ◌≤◌, ◌↔◌, arith, Bool-cases, inl, inr, Option, none, some, leb, if◌then◌else◌,
}
use nendi.Shared.Lsn.{Lsn, IsLsn, saturating_add}
use nendi.Http.Flow.{ReplayRange, replay_range}

-- No range for `none`.
abbrev pub InRange : Lsn → Option ReplayRange → Type 0
InRange lsn none = ⊥
InRange lsn (some r) = (r.start_lsn ≤ lsn) × (lsn ≤ r.end_lsn)

-- An LSN is replayed exactly if it lies past the committed one and not past the head of the
-- stream, a `u64`.
pub replay_range_exact :
    (committed head lsn : Lsn)
    → IsLsn head
    → InRange lsn (replay_range committed head) ↔ ((committed < lsn) × (lsn ≤ head))
unfolding replay_range saturating_add
replay_range_exact committed head lsn h = elim (Bool-cases (leb head committed)) [
  | inl caught_up ↦ rw (caught_up, if◌then◌else◌) ((λ f. absurd f), λ p. absurd (ground arith))
  | inr behind ↦ rw (behind, if◌then◌else◌) ((λ p. ground arith), λ p. ground arith)
]
