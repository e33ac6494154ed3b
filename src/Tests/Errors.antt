-- ===== src/Tests/Errors.antt =====
-- The resolver and the escapes of custom errors.
use pingora_reverse_proxy.Prelude.{ℕ, ◌≡◌, refl, false, some, [], ◌∷◌, ◌==◌, Text, text, arith}
use pingora_reverse_proxy.Upstream.Paths.{decode_bytes}
use pingora_reverse_proxy.Errors.{encode_uri_component}
use pingora_reverse_proxy.Errors.Escaped.{decode_bytes-encode_uri_component}
use pingora_reverse_proxy.Errors.Resolver.{
  CachedAddresses, fresh, store, lease, System, Reach, start, next, reads, looks, finds, leases,
}
use pingora_reverse_proxy.Errors.Leased.{Keeps, Reach-leased}

abbrev request_uri : Text
request_uri = text "/a b?c=1"

encode_uri_component_test : encode_uri_component request_uri ≡ text "%2Fa%20b%3Fc%3D1"
unfolding encode_uri_component
encode_uri_component_test = refl

decode_bytes-encode_uri_component_example :
    decode_bytes (encode_uri_component request_uri) ≡ some request_uri
decode_bytes-encode_uri_component_example =
    decode_bytes-encode_uri_component request_uri (omega arith)

abbrev answer : CachedAddresses ℕ
answer = record { addresses = 7 ∷ 8 ∷ []; generation = 1; expires_at = 30 }

abbrev leased : System ℕ
leased = record {
  cache = record { current = some answer; generation = 1; leased_generation = some 1 };
  looking = false;
}

leased-Reach : Reach {A = ℕ} (λ a b. a == b) leased
unfolding fresh store lease
leased-Reach =
    next (next (next start (looks 0 refl refl)) (finds 30 (7 ∷ 7 ∷ 8 ∷ []) refl)) (leases 1)

-- A read after the expiry.
Reach-leased_example :
    (c : CachedAddresses ℕ) × (leased.cache.current ≡ some c)
    × (c.generation ≡ 1)
    × Keeps (λ a b. a == b) 1 c (record leased { cache = fresh 50 leased.cache })
Reach-leased_example =
    Reach-leased {A = ℕ} (λ a b. a == b) {s = leased}
      {t = record leased { cache = fresh 50 leased.cache }} 1 leased-Reach refl (reads 50)
