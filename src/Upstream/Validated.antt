-- ===== src/Upstream/Validated.antt =====
-- The targets that src/upstream.rs accepts.
use pingora_reverse_proxy.Prelude.{
  ℕ, ◌≡◌, sym, ◌∙◌, Bool, true, false, ◌||◌, Option, none, some, List, any, ok, Text, text, text_eq,
  starts_with_byte, is_empty, ◌==◌, arith, Bool-cases, inl, inr,
}
use pingora_reverse_proxy.Upstream.{
  Target, tcp, unix, Url, parse, parse_tcp, parse_unix, tcp_target, unbracketed, is_tls,
}
use pingora_reverse_proxy.Upstream.Paths.{percent_decode}

-- A host, or an absolute socket path without a NUL.
abbrev pub IsAddressable : Target → Type 0
IsAddressable (tcp host port authority path tls) = is_empty host ≡ false
IsAddressable (unix socket_path path) =
    (starts_with_byte 47 socket_path ≡ true) × (any (λ b. b == 0) socket_path ≡ false)

or-false : {a b : Bool} → (a || b) ≡ false → (a ≡ false) × (b ≡ false)
or-false h = ground arith

module _ (is_ipv6 : Text → Bool) (from_utf8 : List ℕ → Option Text) where
  tcp_target-IsAddressable :
      (url : Url) (host : Text) (o : Option ℕ) (target : Target)
      → is_empty host ≡ false
      → tcp_target is_ipv6 from_utf8 url host o ≡ ok target
      → IsAddressable target × (is_tls target ≡ text_eq url.scheme (text "https"))
  unfolding is_tls
  tcp_target-IsAddressable url host none target e h = cc (h)
  tcp_target-IsAddressable url host (some p) (tcp host' port authority path tls) e h =
      (cc (h, e), cc (h))
  tcp_target-IsAddressable url host (some p) (unix socket_path path) e h = cc (h)

  parse_tcp-IsAddressable :
      (url : Url) (o : Option Text) (target : Target)
      → parse_tcp is_ipv6 from_utf8 url o ≡ ok target
      → IsAddressable target × (is_tls target ≡ text_eq url.scheme (text "https"))
  unfolding parse_tcp is_tls
  parse_tcp-IsAddressable url none target h = cc
  parse_tcp-IsAddressable url (some raw) target h = elim (Bool-cases (is_empty (unbracketed raw))) [
    | inl e ↦ cc (rw (e) at h)
    | inr e ↦
        tcp_target-IsAddressable url (unbracketed raw) url.port_or_known_default target e
          (rw (e) at h)
  ]

  parse_unix-IsAddressable :
      (url : Url) (o : Option Text) (target : Target)
      → parse_unix is_ipv6 from_utf8 url o ≡ ok target
      → IsAddressable target × (is_tls target ≡ false)
  unfolding parse_unix is_tls
  parse_unix-IsAddressable url none target h = cc
  parse_unix-IsAddressable url (some decoded) (tcp host port authority path tls) h = ground arith
  parse_unix-IsAddressable url (some decoded) (unix socket_path path) h = ground arith

  -- A target that parses has a host, or an absolute socket path without a NUL byte, and it uses TLS
  -- exactly when it has a host and its scheme is `https`.
  pub parse-IsAddressable :
      (url : Url) (target : Target)
      → parse is_ipv6 from_utf8 url ≡ ok target
      → IsAddressable target × (is_tls target ≡ text_eq url.scheme (text "https"))
  unfolding parse
  parse-IsAddressable url target h =
      elim (Bool-cases (text_eq url.scheme (text "http") || text_eq url.scheme (text "https"))) [
        | inl e ↦ parse_tcp-IsAddressable url url.host_str target (rw (e) at h)
        | inr e ↦
            elim (Bool-cases
              (text_eq url.scheme (text "http+unix") || text_eq url.scheme (text "unix+http"))) [
                | inl f ↦
                    let (addressable, plain) =
                      parse_unix-IsAddressable url (percent_decode from_utf8 url.host_text) target
                        (rw (e, f) at h) in
                    (addressable, plain ∙ sym (or-false e).1)
                | inr f ↦ cc (rw (e, f) at h)
              ]
      ]
