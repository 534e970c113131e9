-- ===== src/Http/Webhook.antt =====
-- http/src/egress/webhook/dispatcher.rs: the requests that carry events to a webhook.
pub mod Forged
mod Tests
use nendi.Common.{
  ℕ, ◌-◌, ◌*◌, ◌%◌, ◌^◌, Bool, Option, none, some, List, [], ◌∷◌, ◌++◌, Text, codes, length, leb,
  ltb, decimal, hexadecimal, if◌then◌else◌, u64_mod, map,
}
use nendi.Common.Cursor.{Outcome, ok, err, panic}
use nendi.Common.Effects.{Io, ◌>>=◌, pure, fail, or_fail}
use Prim.Native.Nat.{bit_xor}
use nendi.Shared.Event.{ChangeEvent, as_str, qualified}

-- An `i64` from its bit pattern.
unfoldable pub signed : ℕ → Text
signed v = if ltb v (2 ^ 63) then decimal 18 v else b'-' ∷ decimal 18 (u64_mod - v)

-- One item of the payload, with the field `lsn`, a `u64`.
unfoldable pub event_json : ChangeEvent → Text
event_json e =
    codes "{\"lsn\":"
    ++ (decimal 19 e.lsn
        ++ (codes ",\"xid\":"
            ++ (decimal 19 e.xid
                ++ (codes ",\"op\":\""
                    ++ (as_str e.op
                        ++ (codes "\",\"table\":\""
                            ++ (qualified e.table
                                ++ (codes "\",\"ts\":"
                                    ++ (signed e.commit_timestamp_us ++ codes "}")))))))))

-- `items.join(",")`.
unfoldable pub join : List Text → Text
join [] = []
join (item ∷ []) = item
join (item ∷ next ∷ items) = item ++ (b',' ∷ join (next ∷ items))

unfoldable pub build_payload : List ChangeEvent → Text
build_payload events = b'[' ∷ (join (map event_json events) ++ (b']' ∷ []))

-- One round of the loop: `hash ^= b`, then `hash.wrapping_mul(0x100000001b3)`.
unfoldable pub hash_byte : ℕ → ℕ → ℕ
hash_byte hash b = bit_xor hash b * 0x100000001b3 % u64_mod

unfoldable pub hash_bytes : ℕ → Text → ℕ
hash_bytes hash [] = hash
hash_bytes hash (b ∷ bs) = hash_bytes (hash_byte hash b) bs

-- The loop runs over the secret's bytes and then over the payload's.
unfoldable pub compute_hmac : Text → Text → Text
compute_hmac secret payload =
    codes "sha256=" ++ hexadecimal 15 (hash_bytes 0xcbf29ce484222325 (secret ++ payload))

pub record Request : Type 0 where
  pub url : Text
  pub headers : List (Text × Text)
  pub body : Text

-- An HTTP server behind reqwest, neither of which is part of this repository: it answers a request
-- with a status code, or there is no answer.
pub record HttpServer : Type 1 where
  pub Server : Type 0
  pub send : Request → Server → Option ℕ × Server

pub data WebhookError : Type 0 where
  no_answer : WebhookError
  http_status : ℕ → WebhookError

-- The HTTP client, which the timeout configures, is the server's parameter.
pub record WebhookDispatcher : Type 0 where
  pub url : Text
  pub signing_secret : Option Text

unfoldable pub new : Text → Option Text → WebhookDispatcher
new url signing_secret = record { url = url; signing_secret = signing_secret }

unfoldable pub signature_headers : Option Text → Text → List (Text × Text)
signature_headers none payload = []
signature_headers (some secret) payload =
    (codes "X-Nendi-Signature", compute_hmac secret payload) ∷ []

-- The request as it is when it is sent.
unfoldable pub request_for : WebhookDispatcher → List ChangeEvent → Request
request_for d events =
    let payload = build_payload events in
    record {
      url = d.url;
      headers =
          (codes "Content-Type", codes "application/json")
          ∷ (codes "X-Nendi-Events", decimal 19 (length events))
          ∷ signature_headers d.signing_secret payload;
      body = payload;
    }

module _ (http : HttpServer) where
  abbrev pub Call : Type 0 → Type 0
  Call A = Io http.Server WebhookError A

  unfoldable pub sent : Request → Call ℕ
  sent req s = let (status, t) = http.send req s in or_fail no_answer status t

  unfoldable pub dispatch : List ChangeEvent → WebhookDispatcher → Call ℕ
  dispatch events d = do
    status ← sent (request_for d events)
    if leb 400 status then fail (http_status status) else pure status
