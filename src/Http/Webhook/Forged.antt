-- ===== src/Http/Webhook/Forged.antt =====
-- What a signature gives away.
use nendi.Common.{
  some, length, decimal, List, ℕ, ◌*◌, ◌%◌, ◌^◌, ◌<◌, ◌≡◌, refl, arith, [], ◌∷◌, ◌++◌, Text, codes,
  drop, All, IsByte, hexadecimal, read_hex, read_hex-hexadecimal, u64_mod,
}
use nendi.Common.Xor.{bit_xor_twice, bit_xor-lt}
use Prim.Native.Nat.{bit_xor}
use nendi.Http.Webhook.{
  build_payload, signature_headers, ChangeEvent, new, Request, request_for, hash_byte, hash_bytes,
  compute_hmac,
}

-- A round taken back: 0xce965057aff6957b is the inverse of 0x100000001b3 modulo 2 ^ 64.
unhash_byte : ℕ → ℕ → ℕ
unhash_byte hash b = bit_xor (hash * 0xce965057aff6957b % u64_mod) b

unhash_bytes : ℕ → Text → ℕ
unfolding unhash_byte
unhash_bytes hash [] = hash
unhash_bytes hash (b ∷ bs) = unhash_byte (unhash_bytes hash bs) b

-- The signature of `other`, from that of `payload`.
pub forge : Text → Text → Text → Text
unfolding unhash_bytes
forge payload signature other =
    let after_secret = unhash_bytes (read_hex (drop 7 signature)) payload in
    codes "sha256=" ++ hexadecimal 15 (hash_bytes after_secret other)

multiplied_back :
    (x : ℕ) → x < 2 ^ 64 → x * 0x100000001b3 % u64_mod * 0xce965057aff6957b % u64_mod ≡ x
multiplied_back x h = omega arith

hash_byte-lt : (h b : ℕ) → hash_byte h b < 2 ^ 64
unfolding hash_byte
hash_byte-lt h b = omega arith

unhash_byte-hash_byte : (h b : ℕ) → h < 2 ^ 64 → b < 256 → unhash_byte (hash_byte h b) b ≡ h
unfolding unhash_byte hash_byte
unhash_byte-hash_byte h b hh hb =
    rw (multiplied_back (bit_xor h b) (bit_xor-lt 64 h b hh (omega arith))) (bit_xor_twice h b)

unhash_bytes-hash_bytes :
    (h : ℕ) (bs : Text) → h < 2 ^ 64 → All IsByte bs → unhash_bytes (hash_bytes h bs) bs ≡ h
unfolding unhash_bytes hash_bytes
unhash_bytes-hash_bytes h [] hh hb = refl
unhash_bytes-hash_bytes h (b ∷ bs) hh hb =
    rw (unhash_bytes-hash_bytes (hash_byte h b) bs (hash_byte-lt h b) hb.1)
      (unhash_byte-hash_byte h b hh hb.0)

hash_bytes-lt : (h : ℕ) (bs : Text) → h < 2 ^ 64 → hash_bytes h bs < 2 ^ 64
unfolding hash_bytes
hash_bytes-lt h [] hh = hh
hash_bytes-lt h (b ∷ bs) hh = hash_bytes-lt (hash_byte h b) bs (hash_byte-lt h b)

hash_bytes-append :
    (h : ℕ) (xs ys : Text) → hash_bytes h (xs ++ ys) ≡ hash_bytes (hash_bytes h xs) ys
unfolding hash_bytes
hash_bytes-append h [] ys = refl
hash_bytes-append h (x ∷ xs) ys = hash_bytes-append (hash_byte h x) xs ys

-- Whoever has one payload and its signature computes the signature of any other payload, without the secret.
pub forge-compute_hmac :
    (secret payload other : Text)
    → All IsByte payload
    → forge payload (compute_hmac secret payload) other ≡ compute_hmac secret other
unfolding forge compute_hmac
forge-compute_hmac secret payload other h =
    let start : ℕ = 0xcbf29ce484222325 in
    let state = hash_bytes start secret in
    let small : state < 2 ^ 64 = hash_bytes-lt start secret (omega arith) in
    rw
      (
        hash_bytes-append start secret payload,
        hash_bytes-append start secret other,
        read_hex-hexadecimal 15 (hash_bytes state payload)
            (omega (arith, hash_bytes-lt state payload small)),
        unhash_bytes-hash_bytes state payload small h,
      )
      refl

last_value : List (Text × Text) → Text
last_value [] = []
last_value (h ∷ []) = h.1
last_value (h ∷ next ∷ hs) = last_value (next ∷ hs)

-- A request for other events, made from one that was seen.
pub forged_request : Request → List ChangeEvent → Request
unfolding last_value
forged_request seen events = record {
  url = seen.url;
  headers =
      (codes "Content-Type", codes "application/json")
      ∷ (codes "X-Nendi-Events", decimal 19 (length events))
      ∷ (
        codes "X-Nendi-Signature",
        forge seen.body (last_value seen.headers) (build_payload events),
      )
      ∷ [];
  body = build_payload events;
}

-- If the texts of some events are bytes, whoever sees the signed request of a dispatcher for them
-- makes the dispatcher's signed request for any other events, without the secret.
pub forged_request-request_for :
    (url secret : Text) (events others : List ChangeEvent)
    → All IsByte (build_payload events)
    → forged_request (request_for (new url (some secret)) events) others
      ≡ request_for (new url (some secret)) others
unfolding forged_request request_for new signature_headers
forged_request-request_for url secret events others h =
    rw (forge-compute_hmac secret (build_payload events) (build_payload others) h) refl
