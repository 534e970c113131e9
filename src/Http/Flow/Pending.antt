-- ===== src/Http/Flow/Pending.antt =====
-- How many events of a stream are unacknowledged.
use nendi.Common.{
  ℕ, ◌-◌, ◌<◌, ◌≤◌, ◌≡◌, refl, arith, Bool-cases, inl, inr, List, [], ◌∷◌, leb, if◌then◌else◌,
  add_u64, u64_mod,
}
use nendi.Http.Flow.{GrpcBackpressure, new, on_send, on_ack, should_pause}

pub data Call : Type 0 where
  send : Call
  ack : ℕ → Call

-- A server that asks before it sends.
unfoldable pub serve : List Call → GrpcBackpressure → GrpcBackpressure
serve [] b = b
serve (send ∷ cs) b = serve cs (if should_pause b then b else on_send b)
serve (ack n ∷ cs) b = serve cs (on_ack n b)

serve_bound :
    (cs : List Call) (b : GrpcBackpressure)
    → b.pending ≤ b.max_pending
    → b.max_pending < u64_mod
    → ((serve cs b).pending ≤ b.max_pending) × ((serve cs b).max_pending ≡ b.max_pending)
unfolding serve should_pause on_send on_ack
serve_bound [] b h w = (h, refl)
serve_bound (ack n ∷ cs) b h w =
    serve_bound cs (record b { pending = b.pending - n }) (omega arith) w
serve_bound (send ∷ cs) b h w = elim (Bool-cases (leb b.max_pending b.pending)) [
  | inl full ↦ rw (full, serve) (serve_bound cs b h w)
  | inr room ↦
      rw (room, serve)
        (serve_bound cs (record b { pending = add_u64 b.pending 1 }) (ground arith) w)
]

-- A server that sends only while it need not pause never has more events unacknowledged than the
-- limit, a `usize`, whatever acknowledgements come in and when.
pub serve_pending :
    (cs : List Call) (max_pending : ℕ)
    → max_pending < u64_mod
    → (serve cs (new max_pending)).pending ≤ max_pending
unfolding new
serve_pending cs max_pending w = (serve_bound cs (new max_pending) (omega arith) w).0
