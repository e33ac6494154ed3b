-- ===== src/Errors/Escaped.antt =====
-- `encodeURIComponent` of src/errors.rs against the decoder of src/upstream.rs.
use pingora_reverse_proxy.Prelude.{
  ℕ, ◌/◌, ◌%◌, ◌<◌, ◌≡◌, refl, ap, true, false, some, [], ◌∷◌, ◌==◌, All, Text, arith, Bool-cases,
  inl, inr,
}
use pingora_reverse_proxy.Upstream.Paths.{hex, decode_bytes, keep_byte}
use pingora_reverse_proxy.Errors.{is_unreserved, upper_hex, encode_uri_component}

hex-upper_hex : (h : ℕ) → h < 16 → hex (upper_hex h) ≡ some h
unfolding hex
hex-upper_hex h k = ground arith

pub decode_bytes-plain :
    (x : ℕ) (s : Text) → (x == 37) ≡ false → decode_bytes (x ∷ s) ≡ keep_byte x (decode_bytes s)
unfolding decode_bytes
decode_bytes-plain x [] h = rw (h)
decode_bytes-plain x (y ∷ []) h = rw (h)
decode_bytes-plain x (y ∷ z ∷ s) h = rw (h)

pub decode_bytes-escape :
    (x : ℕ) (s value : Text)
    → x < 256
    → decode_bytes s ≡ some value
    → decode_bytes (37 ∷ upper_hex (x / 16) ∷ upper_hex (x % 16) ∷ s) ≡ some (x ∷ value)
unfolding decode_bytes
decode_bytes-escape x s value h e =
    rw (hex-upper_hex (x / 16) (omega (arith, h)), hex-upper_hex (x % 16) (omega arith), e)
      (ap (λ b. some (b ∷ value)) (omega arith))

plain-percent : (x : ℕ) → is_unreserved x ≡ true → (x == 37) ≡ false
plain-percent x h = ground arith

pub decode_bytes-empty : decode_bytes [] ≡ some []
unfolding decode_bytes
decode_bytes-empty = refl

-- The bytes of a text come back from its encoding by `percent_decode`'s loop.
pub decode_bytes-encode_uri_component :
    (value : Text)
    → All (λ b. b < 256) value
    → decode_bytes (encode_uri_component value) ≡ some value
unfolding encode_uri_component
decode_bytes-encode_uri_component [] h = decode_bytes-empty
decode_bytes-encode_uri_component (x ∷ value) (h, t) = elim (Bool-cases (is_unreserved x)) [
  | inl e ↦ rw (
    e,
    decode_bytes-plain x (encode_uri_component value) (plain-percent x e),
    decode_bytes-encode_uri_component value t,
  )
  | inr e ↦ rw (e) (
      decode_bytes-escape x (encode_uri_component value) value h
        (decode_bytes-encode_uri_component value t))
]
