-- ===== src/Http/Webhook/Tests.antt =====
-- The webhook's theorems on one order.
use nendi.Common.{
  arith, inr, ltb→lt, decimal, inl, ◌&&◌, Bool-cases, ltb, Bool, true, Text, ◌≡◌, refl, some, [],
  ◌∷◌, codes, All, IsByte, decimal,
}
use nendi.Shared.Event.{as_str, qualified}
use nendi.Shared.Event.Samples.{order_at}
use nendi.Http.Webhook.{signed, event_json, join, new, request_for, build_payload}
use nendi.Http.Webhook.Forged.{forged_request, forged_request-request_for}

abbrev payload : Text
payload =
    codes
      "[{\"lsn\":7,\"xid\":1,\"op\":\"insert\",\"table\":\"public.orders\",\"ts\":1700000000000000}]"

payload_runs : build_payload (order_at 7 1 ∷ []) ≡ payload
unfolding build_payload join event_json decimal signed as_str qualified
payload_runs = refl

all_bytes : Text → Bool
all_bytes [] = true
all_bytes (c ∷ cs) = ltb c 256 && all_bytes cs

All-all_bytes : (s : Text) → all_bytes s ≡ true → All IsByte s
unfolding all_bytes
All-all_bytes [] e = tt
All-all_bytes (c ∷ cs) e = elim (Bool-cases (ltb c 256)) [
  | inl q ↦ (ltb→lt c 256 q, All-all_bytes cs (rw q at e))
  | inr q ↦ ground arith
]

payload_bytes : All IsByte (build_payload (order_at 7 1 ∷ []))
unfolding all_bytes
payload_bytes = rw payload_runs (All-all_bytes payload refl)

forged_request-request_for_example :
    forged_request
      (request_for (new (codes "http://a") (some (codes "key"))) (order_at 7 1 ∷ []))
      (order_at 9 1 ∷ [])
    ≡ request_for (new (codes "http://a") (some (codes "key"))) (order_at 9 1 ∷ [])
forged_request-request_for_example =
    forged_request-request_for (codes "http://a") (codes "key") (order_at 7 1 ∷ [])
      (order_at 9 1 ∷ []) payload_bytes
