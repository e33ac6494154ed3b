-- ===== src/Errors.antt =====
-- src/errors.rs: the error statuses, the escaped request in a custom error's address, and the
-- resolver (Errors/Resolver).
pub mod Resolver
pub mod Leased
pub mod Escaped
use pingora_reverse_proxy.Prelude.{
  ℕ, ◌+◌, ◌/◌, ◌%◌, Bool, ◌||◌, [], ◌∷◌, ltb, ◌==◌, if◌then◌else◌, Text, text, any,
}
use pingora_reverse_proxy.Upstream.Paths.{is_digit, is_alphabetic}

pub data ProxyErrorClass : Type 0 where
  route_miss unavailable_upstream internal : ProxyErrorClass

unfoldable pub status : ProxyErrorClass → ℕ
status route_miss = 404
status unavailable_upstream = 503
status internal = 500

abbrev pub is_unreserved : ℕ → Bool
is_unreserved byte =
    is_alphabetic byte || (is_digit byte || any (λ b. byte == b) (text "-_.!~*'()"))

-- A digit of `{:02X}`.
abbrev pub upper_hex : ℕ → ℕ
upper_hex h = if ltb h 10 then 48 + h else 55 + h

unfoldable pub encode_uri_component : Text → Text
encode_uri_component [] = []
encode_uri_component (byte ∷ value) =
    let rest = encode_uri_component value in
    if is_unreserved byte
    then byte ∷ rest
    else 37 ∷ upper_hex (byte / 16) ∷ upper_hex (byte % 16) ∷ rest
