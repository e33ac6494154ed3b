-- ===== src/Config/Values.antt =====
-- The values of src/config.rs. The url crate and UTF-8 validation are parameters.
use pingora_reverse_proxy.Prelude.{
  ℕ, ◌+◌, Bool, true, false, not, ◌&&◌, ◌||◌, Option, none, some, List, [], ◌∷◌, ◌++◌, Result, ok,
  err, ◌==◌, leb, any, map, is_empty, if◌then◌else◌, Text, text, text_eq, starts_with_byte,
  ends_with_byte, split_once,
}
use pingora_reverse_proxy.Map.{Map, insert}
use pingora_reverse_proxy.Map.Order.{text_ord}
use pingora_reverse_proxy.Config.{
  TlsConfig, StoreConfig, memory, redis, sidecar, LogLevel, debug, info, warn, error, Url,
  ConfigError, incomplete_key_pair, invalid_log_level, unknown_storage_backend, invalid_target,
  invalid_custom_header, invalid_listener_tls_policy,
}
use pingora_reverse_proxy.Upstream.Paths
use pingora_reverse_proxy.Upstream.Paths.{to_string}

abbrev pub is_some : {A : Type 0} → Option A → Bool
is_some none = false
is_some (some a) = true

abbrev pub unwrap_or : {A : Type 0} → A → Option A → A
unwrap_or a none = a
unwrap_or a (some b) = b

abbrev pub nonzero_port : Option ℕ → Option ℕ
nonzero_port none = none
nonzero_port (some port) = if port == 0 then none else some port

unfoldable pub tcp_address : Text → ℕ → Text
unfolding to_string text_eq
tcp_address host_ port =
    let host = if text_eq host_ (text "*") then [] else host_ in
    if any (λ b. b == 58) host && not (starts_with_byte 91 host)
    then text "[" ++ (host ++ (text "]:" ++ to_string port))
    else host ++ (text ":" ++ to_string port)

abbrev pub differ : Bool → Bool → Bool
differ true b = not b
differ false b = b

unfoldable pub validate_pair : Option Text → Option Text → Text → Result ConfigError (Unit {0})
validate_pair key cert names =
    if differ (is_some key) (is_some cert) then err (incomplete_key_pair names) else ok tt

abbrev pub is_filled : Option Text → Bool
is_filled none = false
is_filled (some path) = not (is_empty path)

unfoldable pub validate_listener_tls_policy :
    Bool → Bool → Option Text → Text → Text → Text → Result ConfigError (Unit {0})
validate_listener_tls_policy reject_unauthorized request_cert ca reject_flag request_flag ca_flag =
    if reject_unauthorized && (not request_cert || not (is_filled ca))
    then err (invalid_listener_tls_policy reject_flag request_flag ca_flag)
    else ok tt

pub record InheritedTls : Type 0 where
  pub protocol : Option Text
  pub ciphers : Option Text
  pub dhparam : Option Text

unfoldable pub tls_config :
    Option Text
    → Option Text
    → Option Text
    → Option Text
    → Bool
    → Bool
    → InheritedTls
    → Bool
    → Option TlsConfig
tls_config key cert ca key_passphrase request_cert reject_unauthorized inherited ca_activates =
    if not (is_some key) && (not (is_some cert) && (not ca_activates || not (is_some ca)))
    then none
    else some (record {
      key = key;
      cert = cert;
      ca = ca;
      key_passphrase = key_passphrase;
      request_cert = request_cert;
      reject_unauthorized = reject_unauthorized;
      protocol = inherited.protocol;
      ciphers = inherited.ciphers;
      dhparam = inherited.dhparam;
    })

abbrev pub is_socket_path : Option Text → Bool
is_socket_path none = false
is_socket_path (some decoded) =
    not (is_empty decoded) && (not (any (λ b. b == 0) decoded) && starts_with_byte 47 decoded)

-- The loop over the escapes is that of `percent_decode` in src/upstream.rs.
unfoldable pub is_percent_encoded_socket_host : (List ℕ → Option Text) → Text → Bool
unfolding Paths.percent_decode
is_percent_encoded_socket_host from_utf8 host =
    is_socket_path (Paths.percent_decode from_utf8 host) && any (λ b. b == 37) host

module _ (from_utf8 : List ℕ → Option Text) (parse : Text → Option Url) where
  abbrev pub is_valid_target : Url → Bool
  is_valid_target url =
      if text_eq url.scheme (text "http") || text_eq url.scheme (text "https")
      then is_filled url.host_str
      else (if text_eq url.scheme (text "http+unix") || text_eq url.scheme (text "unix+http")
          then is_percent_encoded_socket_host from_utf8 url.authority
          else false)

  abbrev pub checked_target : Text → Text → Option Url → Result ConfigError (Option Url)
  checked_target kind value none = err (invalid_target kind value)
  checked_target kind value (some url) =
      if is_valid_target url then ok (some url) else err (invalid_target kind value)

  unfoldable pub parse_target : Option Text → Text → Result ConfigError (Option Url)
  unfolding is_percent_encoded_socket_host text_eq
  parse_target none kind = ok none
  parse_target (some value) kind = checked_target kind value (parse value)

  abbrev pub slashed : Text → Text
  slashed target = if ends_with_byte 47 target then target else target ++ text "/"

  unfoldable pub parse_error_target : Option Text → Result ConfigError (Option Url)
  unfolding parse_target
  parse_error_target none = parse_target none (text "error target")
  parse_error_target (some target) = parse_target (some (slashed target)) (text "error target")

abbrev pub to_ascii_lowercase : Text → Text
to_ascii_lowercase value = map (λ b. if leb 65 b && leb b 90 then b + 32 else b) value

unfoldable pub parse_log_level : Text → Result ConfigError LogLevel
unfolding text_eq
parse_log_level value =
    let lower = to_ascii_lowercase value in
    if text_eq lower (text "debug")
    then ok debug
    else (if text_eq lower (text "info")
        then ok info
        else (if text_eq lower (text "warn")
            then ok warn
            else (if text_eq lower (text "error")
                then ok error
                else err (invalid_log_level value))))

unfoldable pub parse_store : Option Text → Result ConfigError StoreConfig
unfolding text_eq
parse_store value =
    let name = unwrap_or (text "memory") value in
    if text_eq name (text "memory")
    then ok memory
    else (if text_eq name (text "redis")
        then ok redis
        else (if text_eq name (text "sidecar")
            then ok sidecar
            else err (unknown_storage_backend (unwrap_or [] value))))

-- `str::trim` is a parameter, with Unicode's white space.
module _ (trim : Text → Text) where
  abbrev pub header_of : Text → Option (Text × Text) → Result ConfigError (Text × Text)
  header_of value none = err (invalid_custom_header value)
  header_of value (some (name, header_value)) =
      if is_empty (trim name)
      then err (invalid_custom_header value)
      else ok (trim name, trim header_value)

  abbrev pub with_header :
      Map Text Text
      → (Map Text Text → Result ConfigError (Map Text Text))
      → Result ConfigError (Text × Text)
      → Result ConfigError (Map Text Text)
  with_header headers next (err e) = err e
  with_header headers next (ok (name, header_value)) = next (insert name header_value headers)

  unfoldable pub header_loop : Map Text Text → List Text → Result ConfigError (Map Text Text)
  unfolding split_once insert
  header_loop headers [] = ok headers
  header_loop headers (value ∷ values) =
      with_header headers (λ h. header_loop h values) (header_of value (split_once 58 (trim value)))

  unfoldable pub parse_custom_headers : List Text → Result ConfigError (Map Text Text)
  unfolding header_loop
  parse_custom_headers values = header_loop [] values
