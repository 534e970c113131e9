-- ===== src/Core/Backpressure/Gate/Calls.antt =====
-- The gate as one thread uses it.
use nendi.Common.{
  ℕ, ◌+◌, ◌%◌, ◌≡◌, ap, arith, Bool, true, false, Option, none, some, List, [], ◌∷◌, u64_mod,
}
use nendi.Core.Backpressure.Gate.{
  PauseReason, BackpressureGate, new, Access, access, close, open_gate,
}

pub data Call : Type 0 where
  closing : PauseReason → Call
  opening : Call

unfoldable pub accesses : Call → List Access
accesses (closing r) = close r
accesses opening = open_gate

unfoldable pub perform : List Access → BackpressureGate → BackpressureGate
perform [] g = g
perform (a ∷ rest) g = perform rest (access a g)

unfoldable pub run : List Call → BackpressureGate → BackpressureGate
run [] g = g
run (c ∷ cs) g = run cs (perform (accesses c) g)

-- The last call's effect, and the number of closes.
unfoldable pub last_reason : Option PauseReason → List Call → Option PauseReason
last_reason r [] = r
last_reason r (closing s ∷ cs) = last_reason (some s) cs
last_reason r (opening ∷ cs) = last_reason none cs

unfoldable pub closes : List Call → ℕ
closes [] = 0
closes (closing s ∷ cs) = 1 + closes cs
closes (opening ∷ cs) = closes cs

abbrev pub is_none {ℓ} : {A : Type ℓ} → Option A → Bool
is_none none = true
is_none (some _) = false

gate_after :
    (cs : List Call) (r : Option PauseReason) (n : ℕ)
    → run cs (record { is_open = is_none r; reason = r; close_count = n % u64_mod }) ≡ record {
      is_open = is_none (last_reason r cs);
      reason = last_reason r cs;
      close_count = (n + closes cs) % u64_mod;
    }
unfolding run accesses perform access close open_gate last_reason closes
gate_after [] r n =
    let e : n % u64_mod ≡ (n + 0) % u64_mod = omega arith in
    ap (λ k. record { is_open = is_none r; reason = r; close_count = k }) e
gate_after (opening ∷ cs) r n = gate_after cs none n
gate_after (closing s ∷ cs) r n =
    let counted : (n % u64_mod + 1) % u64_mod ≡ (n + 1) % u64_mod = omega arith in
    let sum : (n + 1 + closes cs) % u64_mod ≡ (n + (1 + closes cs)) % u64_mod = omega arith in
    rw (counted, ← sum) (gate_after cs (some s) (n + 1))

-- After any calls by one thread the gate shows the reason of the last call, none if that opened it,
-- is open exactly if there is no reason, and has counted the closes.
pub run-new :
    (cs : List Call)
    → run cs new ≡ record {
      is_open = is_none (last_reason none cs);
      reason = last_reason none cs;
      close_count = closes cs % u64_mod;
    }
run-new cs =
    let zeroes : (0 + closes cs) % u64_mod ≡ closes cs % u64_mod = omega arith in
    rw zeroes at (gate_after cs none 0)
