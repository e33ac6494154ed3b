-- ===== src/Tests/Config.antt =====
-- A configuration with TLS and the Redis store, and one that lacks the required token.
use pingora_reverse_proxy.Prelude.{
  ◌≡◌, refl, true, false, Option, none, some, [], ◌∷◌, Result, ok, err, if◌then◌else◌, Text, text,
  text_eq, split_once,
}
use pingora_reverse_proxy.Map.{insert}
use pingora_reverse_proxy.Config.{Cli, AppConfig, tcp, redis, info, missing_required_auth_token}
use pingora_reverse_proxy.Config.Accepted.{try_from-IsValid}
use pingora_reverse_proxy.Config.Load.{Parsers, try_from, default_ciphers}
use pingora_reverse_proxy.Config.Runtime.{VarError, not_present, Env}
use pingora_reverse_proxy.Config.Valid.{IsValid}

abbrev parsers : Parsers
parsers = record {
  from_utf8 = some;
  trim = λ s. s;
  parse_url = λ s. none;
  parses_redis_url = λ s. true;
}

abbrev var_of : Option Text → Text → Result VarError Text
var_of token name =
    if text_eq name (text "PINGORA_REDIS_URL")
    then ok (text "redis://r")
    else (if text_eq name (text "PINGORA_REDIS_OPERATION_TIMEOUT_MS")
        then ok (text "50")
        else (if text_eq name (text "CONFIGPROXY_AUTH_TOKEN")
            then elim token [ none ↦ err not_present | some t ↦ ok t ]
            else err not_present))

abbrev env : Option Text → Env
env token = record { var = var_of token; var_os = λ name. some (text "true") }

abbrev cli : Cli
cli = record {
  ip = none;
  port = some 65534;
  socket = none;
  ssl_key = some (text "k");
  ssl_cert = some (text "c");
  ssl_ca = some (text "a");
  ssl_request_cert = true;
  ssl_reject_unauthorized = true;
  ssl_protocol = none;
  ssl_ciphers = none;
  ssl_allow_rc4 = false;
  ssl_dhparam = none;
  api_ip = none;
  api_port = none;
  api_socket = none;
  api_ssl_key = none;
  api_ssl_cert = none;
  api_ssl_ca = none;
  api_ssl_request_cert = false;
  api_ssl_reject_unauthorized = false;
  client_ssl_key = none;
  client_ssl_cert = none;
  client_ssl_ca = none;
  client_ssl_request_cert = false;
  client_ssl_reject_unauthorized = false;
  default_target = none;
  error_target = none;
  error_path = none;
  redirect_port = some 80;
  redirect_to = none;
  pid_file = none;
  x_forward = true;
  prepend_path = true;
  include_prefix = true;
  auto_rewrite = false;
  change_origin = false;
  protocol_rewrite = none;
  custom_header = text "A:b" ∷ [];
  insecure = false;
  host_routing = false;
  metrics_ip = none;
  metrics_port = some 0;
  metrics_socket = none;
  log_level = text "Info";
  timeout = none;
  proxy_timeout = none;
  storage_backend = some (text "redis");
  keep_alive_timeout = some 0;
}

abbrev config : AppConfig
config = record {
  public_listener = tcp (text ":65534");
  api_listener = tcp (text "localhost:65535");
  metrics_listener = none;
  public_tls = some (record {
    key = some (text "k");
    cert = some (text "c");
    ca = some (text "a");
    key_passphrase = none;
    request_cert = true;
    reject_unauthorized = true;
    protocol = none;
    ciphers = some default_ciphers;
    dhparam = none;
  });
  api_tls = none;
  client_tls = none;
  default_target = none;
  error_target = none;
  error_path = none;
  redirect_port = some 80;
  redirect_to = none;
  pid_file = none;
  auth_token = some (text "t");
  log_level = info;
  store = redis;
  redis = some (record {
    url = text "redis://r";
    route_key = text "pingora-reverse-proxy:routes:v1";
    operation_timeout = 50;
  });
  sidecar = none;
  proxy = record {
    x_forward = true;
    prepend_path = true;
    include_prefix = true;
    auto_rewrite = false;
    change_origin = false;
    protocol_rewrite = none;
    custom_headers = (text "A", text "b") ∷ [];
    verify_upstream_tls = true;
    host_routing = false;
    timeout_ms = none;
    proxy_timeout_ms = none;
    keep_alive_timeout_ms = some 5000;
  };
}

config_test : try_from parsers (env (some (text "t"))) cli ≡ ok config
unfolding try_from text_eq split_once insert
config_test = refl

token_test : try_from parsers (env none) cli ≡ err missing_required_auth_token
unfolding try_from text_eq split_once insert
token_test = refl

try_from-IsValid_example : IsValid (env (some (text "t"))) config
try_from-IsValid_example = try_from-IsValid parsers (env (some (text "t"))) cli config config_test
