-- ===== src/Upstream.antt =====
-- src/upstream.rs: targets, request paths and headers. A `Url` of the url crate is what the code
-- reads of it; the parse of IP addresses and `from_utf8` are parameters.
pub mod Paths
pub mod Join
pub mod Headers
pub mod Nominated
pub mod Policy
pub mod Forwarded
pub mod Validated
pub mod Location
use pingora_reverse_proxy.Prelude.{
  ℕ, Bool, true, false, not, Option, none, some, List, [], ◌∷◌, ◌++◌, ◌||◌, any, Result, ok, err,
  Text, text, text_eq, strip_prefix, starts_with_byte, ends_with_byte, pop, is_empty, ◌==◌,
  if◌then◌else◌,
}
use pingora_reverse_proxy.Upstream.Paths.{percent_decode, to_string}

pub data Target : Type 0 where
  tcp : (host : Text) (port : ℕ) (authority : Text) (path : Text) (tls : Bool) → Target
  unix : (socket_path : Text) (path : Text) → Target

pub data TargetError : Type 0 where
  unsupported_scheme : Text → TargetError
  missing_host invalid_unix_socket partial_client_identity : TargetError

-- What `Target::parse` reads of a `Url`; `host_text` is the slice around the host and the port.
pub record Url : Type 0 where
  pub scheme : Text
  pub host_str : Option Text
  pub port : Option ℕ
  pub port_or_known_default : Option ℕ
  pub path : Text
  pub query : Option Text
  pub host_text : Text

abbrev pub slash : ℕ
slash = 47

unfoldable pub target_path : Url → Text
target_path url =
    let path = if is_empty url.path then text "/" else url.path in
    elim (url.query) [ none ↦ path | some query ↦ path ++ (text "?" ++ query) ]

-- `raw_host.strip_prefix('[').and_then(strip_suffix(']')).unwrap_or(raw_host)`.
unfoldable pub unbracketed : Text → Text
unbracketed raw_host = elim (strip_prefix (text "[") raw_host) [
  | none ↦ raw_host
  | some host ↦ if ends_with_byte 93 host then pop host else raw_host
]

module _ (is_ipv6 : Text → Bool) (from_utf8 : List ℕ → Option Text) where
  unfoldable pub authority : Url → Text → Text
  unfolding to_string
  authority url host =
      let display_host = if is_ipv6 host then text "[" ++ (host ++ text "]") else host in
      elim (url.port) [
        | some port ↦ display_host ++ (text ":" ++ to_string port)
        | none ↦ display_host
      ]

  -- The arm for a host and its default port.
  abbrev pub tcp_target : Url → Text → Option ℕ → Result TargetError Target
  tcp_target url host none = err missing_host
  tcp_target url host (some port) =
      ok (tcp host port (authority url host) (target_path url) (text_eq url.scheme (text "https")))

  unfoldable pub parse_tcp : Url → Option Text → Result TargetError Target
  unfolding unbracketed
  parse_tcp url none = err missing_host
  parse_tcp url (some raw_host) =
      let host = unbracketed raw_host in
      if is_empty host then err missing_host else tcp_target url host url.port_or_known_default

  unfoldable pub parse_unix : Url → Option Text → Result TargetError Target
  parse_unix url none = err invalid_unix_socket
  parse_unix url (some decoded) =
      if is_empty decoded || (any (λ b. b == 0) decoded || not (starts_with_byte slash decoded))
      then err invalid_unix_socket
      else ok (unix decoded (target_path url))

  unfoldable pub parse : Url → Result TargetError Target
  unfolding parse_tcp parse_unix
  parse url =
      if text_eq url.scheme (text "http") || text_eq url.scheme (text "https")
      then parse_tcp url url.host_str
      else (if text_eq url.scheme (text "http+unix") || text_eq url.scheme (text "unix+http")
          then parse_unix url (percent_decode from_utf8 url.host_text)
          else err (unsupported_scheme url.scheme))

-- `Target::authority`, `path`, `is_tls` and `unix_path`.
unfoldable pub target_authority : Target → Text
target_authority (tcp host port authority path tls) = authority
target_authority (unix socket_path path) = text "localhost"

unfoldable pub path_of : Target → Text
path_of (tcp host port authority path tls) = path
path_of (unix socket_path path) = path

unfoldable pub is_tls : Target → Bool
is_tls (tcp host port authority path tls) = tls
is_tls (unix socket_path path) = false

unfoldable pub unix_path : Target → Option Text
unix_path (tcp host port authority path tls) = none
unix_path (unix socket_path path) = some socket_path
