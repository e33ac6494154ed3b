-- ===== src/Store/Sidecar/Segment.antt =====
-- The path segments of src/store/sidecar.rs against the percent decoder of src/upstream.rs.
use pingora_reverse_proxy.Prelude.{
  ℕ, ◌/◌, ◌%◌, ◌+◌, ◌<◌, ◌≡◌, Bool, ◌||◌, true, false, some, [], ◌∷◌, ltb, ◌==◌, any, if◌then◌else◌,
  All, Text, text, arith, Bool-cases, inl, inr,
}
use pingora_reverse_proxy.Upstream.Paths.{is_digit, is_alphabetic, decode_bytes}
use pingora_reverse_proxy.Errors.Escaped.{
  decode_bytes-plain, decode_bytes-escape, decode_bytes-empty,
}

abbrev pub hex_digit : ℕ → ℕ
hex_digit nibble = if ltb nibble 10 then 48 + nibble else 55 + nibble

abbrev pub is_segment_byte : ℕ → Bool
is_segment_byte byte = (is_alphabetic byte || is_digit byte) || any (λ b. byte == b) (text "-._~")

unfoldable pub encode_segment : Text → Text
encode_segment [] = []
encode_segment (byte ∷ raw) =
    let rest = encode_segment raw in
    if is_segment_byte byte
    then byte ∷ rest
    else 37 ∷ hex_digit (byte / 16) ∷ hex_digit (byte % 16) ∷ rest

plain_segment : (x : ℕ) → is_segment_byte x ≡ true → (x == 37) ≡ false
plain_segment x h = ground arith

-- The bytes of a text come back from its segment by `percent_decode`'s loop.
pub decode_bytes-encode_segment :
    (raw : Text) → All (λ b. b < 256) raw → decode_bytes (encode_segment raw) ≡ some raw
unfolding encode_segment
decode_bytes-encode_segment [] h = decode_bytes-empty
decode_bytes-encode_segment (x ∷ raw) (h, t) = elim (Bool-cases (is_segment_byte x)) [
  | inl e ↦ rw (
    e,
    decode_bytes-plain x (encode_segment raw) (plain_segment x e),
    decode_bytes-encode_segment raw t,
  )
  | inr e ↦
      rw (e) (decode_bytes-escape x (encode_segment raw) raw h (decode_bytes-encode_segment raw t))
]
