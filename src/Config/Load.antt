-- ===== src/Config/Load.antt =====
-- `AppConfig::try_from` of src/config.rs.
use pingora_reverse_proxy.Prelude.{
  ℕ, ◌+◌, ◌^◌, Bool, true, false, not, ◌&&◌, ◌||◌, Option, none, some, List, [], Result, ok, err,
  ◌>>=◌, ◌>>◌, ltb, if◌then◌else◌, Text, text,
}
use pingora_reverse_proxy.Config.{
  Cli, AppConfig, ListenerConfig, tcp, unix, Url, ConfigError, conflicting_error_handlers,
  redirect_without_tls, rc4_unsupported, api_port_overflow, unsupported_client_tls_flag,
  missing_required_auth_token,
}
use pingora_reverse_proxy.Config.Runtime.{
  Env, env_nonempty, parse_required_auth_policy, parse_redis_runtime, parse_sidecar_runtime,
}
use pingora_reverse_proxy.Config.Values.{
  is_some, unwrap_or, nonzero_port, tcp_address, validate_pair, validate_listener_tls_policy,
  InheritedTls, tls_config, parse_target, parse_error_target, parse_log_level, parse_store,
  parse_custom_headers,
}

-- What the code asks of the standard library, the url and the redis crate.
pub record Parsers : Type 0 where
  pub from_utf8 : List ℕ → Option Text
  pub trim : Text → Text
  pub parse_url : Text → Option Url
  pub parses_redis_url : Text → Bool

abbrev pub default_ciphers : Text
default_ciphers =
    text
      "ECDHE-RSA-AES128-GCM-SHA256:ECDHE-ECDSA-AES128-GCM-SHA256:ECDHE-RSA-AES256-GCM-SHA384:ECDHE-ECDSA-AES256-GCM-SHA384:DHE-RSA-AES128-GCM-SHA256:ECDHE-RSA-AES128-SHA256:DHE-RSA-AES128-SHA256:ECDHE-RSA-AES256-SHA384:DHE-RSA-AES256-SHA384:ECDHE-RSA-AES256-SHA256:DHE-RSA-AES256-SHA256:HIGH:!RC4:!aNULL:!eNULL:!EXPORT:!DES:!RC4:!MD5:!PSK:!SRP:!CAMELLIA"

abbrev pub reject_if : Bool → ConfigError → Result ConfigError (Unit {0})
reject_if true e = err e
reject_if false e = ok tt

abbrev pub listener : Option Text → Text → ℕ → ListenerConfig
listener none host port = tcp (tcp_address host port)
listener (some path) host port = unix path

-- `checked_add` of a `u16`.
abbrev pub port_after : ℕ → Result ConfigError ℕ
port_after port = if ltb (port + 1) (2 ^ 16) then ok (port + 1) else err api_port_overflow

abbrev pub api_port_of : Option ℕ → Bool → ℕ → Result ConfigError ℕ
api_port_of none true public_port = ok 8001
api_port_of none false public_port = port_after public_port
api_port_of (some port) public_uses_socket public_port = ok port

unfoldable pub api_listener_of : Cli → ℕ → Option Text → Result ConfigError ListenerConfig
unfolding tcp_address
api_listener_of cli public_port (some path) = ok (unix path)
api_listener_of cli public_port none = do
  api_port ← api_port_of (nonzero_port cli.api_port) (is_some cli.socket) public_port
  ok (tcp (tcp_address (unwrap_or (text "localhost") cli.api_ip) api_port))

unfoldable pub metrics_listener_of : Cli → Option Text → Option ℕ → Option ListenerConfig
unfolding tcp_address
metrics_listener_of cli (some path) port = some (unix path)
metrics_listener_of cli none (some port) =
    some (tcp (tcp_address (unwrap_or [] cli.metrics_ip) port))
metrics_listener_of cli none none = none

abbrev pub public_policy : Cli → Result ConfigError (Unit {0})
public_policy cli =
    validate_listener_tls_policy cli.ssl_reject_unauthorized cli.ssl_request_cert cli.ssl_ca
      (text "--ssl-reject-unauthorized") (text "--ssl-request-cert") (text "--ssl-ca")

abbrev pub api_policy : Cli → Result ConfigError (Unit {0})
api_policy cli =
    validate_listener_tls_policy cli.api_ssl_reject_unauthorized cli.api_ssl_request_cert
      cli.api_ssl_ca (text "--api-ssl-reject-unauthorized") (text "--api-ssl-request-cert")
      (text "--api-ssl-ca")

abbrev pub policies : Cli → Result ConfigError (Unit {0})
policies cli = do
  public_policy cli
  api_policy cli
  reject_if
      (is_some (nonzero_port cli.redirect_port)
        && (not (is_some cli.ssl_key) || not (is_some cli.ssl_cert)))
      redirect_without_tls

abbrev pub pairs : Cli → Result ConfigError (Unit {0})
pairs cli = do
  validate_pair cli.ssl_key cli.ssl_cert (text "--ssl-key and --ssl-cert")
  validate_pair cli.api_ssl_key cli.api_ssl_cert (text "--api-ssl-key and --api-ssl-cert")
  validate_pair cli.client_ssl_key cli.client_ssl_cert
      (text "--client-ssl-key and --client-ssl-cert")
  policies cli

-- The checks of the options that stand before everything else.
unfoldable pub validate : Cli → Result ConfigError (Unit {0})
unfolding validate_pair validate_listener_tls_policy
validate cli = do
  reject_if cli.client_ssl_request_cert
      (unsupported_client_tls_flag (text "--client-ssl-request-cert"))
  reject_if cli.client_ssl_reject_unauthorized
      (unsupported_client_tls_flag (text "--client-ssl-reject-unauthorized"))
  reject_if cli.ssl_allow_rc4 rc4_unsupported
  reject_if (is_some cli.error_target && is_some cli.error_path) conflicting_error_handlers
  pairs cli

abbrev pub inherited_of : Cli → InheritedTls
inherited_of cli = record {
  protocol = cli.ssl_protocol;
  ciphers = some (unwrap_or default_ciphers cli.ssl_ciphers);
  dhparam = cli.ssl_dhparam;
}

module _ (parsers : Parsers) (env : Env) where
  unfoldable pub try_from : Cli → Result ConfigError AppConfig
  unfolding validate api_listener_of metrics_listener_of tls_config parse_target parse_error_target
      parse_log_level parse_store parse_redis_runtime parse_sidecar_runtime parse_custom_headers
      env_nonempty parse_required_auth_policy
  try_from cli = do
    validate cli
    let public_port = unwrap_or 8000 (nonzero_port cli.port)
    api_listener ← api_listener_of cli public_port cli.api_socket
    default_target ←
        parse_target parsers.from_utf8 parsers.parse_url cli.default_target (text "default target")
    error_target ← parse_error_target parsers.from_utf8 parsers.parse_url cli.error_target
    log_level ← parse_log_level cli.log_level
    store ← parse_store cli.storage_backend
    redis ← parse_redis_runtime env parsers.parses_redis_url store
    sidecar ← parse_sidecar_runtime env parsers.parse_url store
    custom_headers ← parse_custom_headers parsers.trim cli.custom_header
    let auth_token = env_nonempty env (text "CONFIGPROXY_AUTH_TOKEN")
    require_auth_token ← parse_required_auth_policy env
    reject_if (require_auth_token && not (is_some auth_token)) missing_required_auth_token
    ok (record {
      public_listener = listener cli.socket (unwrap_or [] cli.ip) public_port;
      api_listener = api_listener;
      metrics_listener = metrics_listener_of cli cli.metrics_socket (nonzero_port cli.metrics_port);
      public_tls =
          tls_config cli.ssl_key cli.ssl_cert cli.ssl_ca
            (env_nonempty env (text "CONFIGPROXY_SSL_KEY_PASSPHRASE")) cli.ssl_request_cert
            cli.ssl_reject_unauthorized (inherited_of cli) false;
      api_tls =
          tls_config cli.api_ssl_key cli.api_ssl_cert cli.api_ssl_ca
            (env_nonempty env (text "CONFIGPROXY_API_SSL_KEY_PASSPHRASE")) cli.api_ssl_request_cert
            cli.api_ssl_reject_unauthorized (inherited_of cli) false;
      client_tls =
          tls_config cli.client_ssl_key cli.client_ssl_cert cli.client_ssl_ca none
            cli.client_ssl_request_cert cli.client_ssl_reject_unauthorized (inherited_of cli) true;
      default_target = default_target;
      error_target = error_target;
      error_path = cli.error_path;
      redirect_port = nonzero_port cli.redirect_port;
      redirect_to = nonzero_port cli.redirect_to;
      pid_file = cli.pid_file;
      auth_token = auth_token;
      log_level = log_level;
      store = store;
      redis = redis;
      sidecar = sidecar;
      proxy = record {
        x_forward = cli.x_forward;
        prepend_path = cli.prepend_path;
        include_prefix = cli.include_prefix;
        auto_rewrite = cli.auto_rewrite;
        change_origin = cli.change_origin;
        protocol_rewrite = cli.protocol_rewrite;
        custom_headers = custom_headers;
        verify_upstream_tls = not cli.insecure;
        host_routing = cli.host_routing;
        timeout_ms = cli.timeout;
        proxy_timeout_ms = cli.proxy_timeout;
        keep_alive_timeout_ms = some (unwrap_or 5000 (nonzero_port cli.keep_alive_timeout));
      };
    })
