-- ===== src/Config.antt =====
-- src/config.rs: the options, the configuration and its errors. A path is a text.
pub mod Values
pub mod Runtime
pub mod Load
pub mod Valid
pub mod Settings
pub mod Accepted
use pingora_reverse_proxy.Prelude.{ℕ, Bool, Option, List, Text}
use pingora_reverse_proxy.Map.{Map}

pub record Cli : Type 0 where
  pub ip : Option Text
  pub port : Option ℕ
  pub socket : Option Text
  pub ssl_key : Option Text
  pub ssl_cert : Option Text
  pub ssl_ca : Option Text
  pub ssl_request_cert : Bool
  pub ssl_reject_unauthorized : Bool
  pub ssl_protocol : Option Text
  pub ssl_ciphers : Option Text
  pub ssl_allow_rc4 : Bool
  pub ssl_dhparam : Option Text
  pub api_ip : Option Text
  pub api_port : Option ℕ
  pub api_socket : Option Text
  pub api_ssl_key : Option Text
  pub api_ssl_cert : Option Text
  pub api_ssl_ca : Option Text
  pub api_ssl_request_cert : Bool
  pub api_ssl_reject_unauthorized : Bool
  pub client_ssl_key : Option Text
  pub client_ssl_cert : Option Text
  pub client_ssl_ca : Option Text
  pub client_ssl_request_cert : Bool
  pub client_ssl_reject_unauthorized : Bool
  pub default_target : Option Text
  pub error_target : Option Text
  pub error_path : Option Text
  pub redirect_port : Option ℕ
  pub redirect_to : Option ℕ
  pub pid_file : Option Text
  pub x_forward : Bool
  pub prepend_path : Bool
  pub include_prefix : Bool
  pub auto_rewrite : Bool
  pub change_origin : Bool
  pub protocol_rewrite : Option Text
  pub custom_header : List Text
  pub insecure : Bool
  pub host_routing : Bool
  pub metrics_ip : Option Text
  pub metrics_port : Option ℕ
  pub metrics_socket : Option Text
  pub log_level : Text
  pub timeout : Option ℕ
  pub proxy_timeout : Option ℕ
  pub storage_backend : Option Text
  pub keep_alive_timeout : Option ℕ

pub data ListenerConfig : Type 0 where
  tcp : Text → ListenerConfig
  unix : Text → ListenerConfig

pub record TlsConfig : Type 0 where
  pub key : Option Text
  pub cert : Option Text
  pub ca : Option Text
  pub key_passphrase : Option Text
  pub request_cert : Bool
  pub reject_unauthorized : Bool
  pub protocol : Option Text
  pub ciphers : Option Text
  pub dhparam : Option Text

pub data StoreConfig : Type 0 where
  memory redis sidecar : StoreConfig

-- Timeouts are milliseconds.
pub record RedisRuntimeConfig : Type 0 where
  pub url : Text
  pub route_key : Text
  pub operation_timeout : ℕ

pub record SidecarRuntimeConfig : Type 0 where
  pub url : Text
  pub bearer_token : Text
  pub connect_timeout : ℕ
  pub request_timeout : ℕ

pub data LogLevel : Type 0 where
  debug info warn error : LogLevel

pub record ProxyOptions : Type 0 where
  pub x_forward : Bool
  pub prepend_path : Bool
  pub include_prefix : Bool
  pub auto_rewrite : Bool
  pub change_origin : Bool
  pub protocol_rewrite : Option Text
  pub custom_headers : Map Text Text
  pub verify_upstream_tls : Bool
  pub host_routing : Bool
  pub timeout_ms : Option ℕ
  pub proxy_timeout_ms : Option ℕ
  pub keep_alive_timeout_ms : Option ℕ

-- What the code reads of a `Url`; `authority` is what stands from its host to the end of its port.
pub record Url : Type 0 where
  pub scheme : Text
  pub host_str : Option Text
  pub authority : Text
  pub username : Text
  pub password : Option Text
  pub path : Text
  pub query : Option Text
  pub fragment : Option Text

pub record AppConfig : Type 0 where
  pub public_listener : ListenerConfig
  pub api_listener : ListenerConfig
  pub metrics_listener : Option ListenerConfig
  pub public_tls : Option TlsConfig
  pub api_tls : Option TlsConfig
  pub client_tls : Option TlsConfig
  pub default_target : Option Url
  pub error_target : Option Url
  pub error_path : Option Text
  pub redirect_port : Option ℕ
  pub redirect_to : Option ℕ
  pub pid_file : Option Text
  pub auth_token : Option Text
  pub log_level : LogLevel
  pub store : StoreConfig
  pub redis : Option RedisRuntimeConfig
  pub sidecar : Option SidecarRuntimeConfig
  pub proxy : ProxyOptions

pub data ConfigError : Type 0 where
  conflicting_error_handlers redirect_without_tls rc4_unsupported api_port_overflow : ConfigError
  incomplete_key_pair invalid_log_level unknown_storage_backend : Text → ConfigError
  invalid_target : Text → Text → ConfigError
  invalid_custom_header unsupported_client_tls_flag : Text → ConfigError
  missing_redis_url invalid_redis_url invalid_redis_route_key : ConfigError
  invalid_redis_operation_timeout missing_sidecar_url invalid_sidecar_url : ConfigError
  missing_sidecar_bearer_token invalid_sidecar_connect_timeout : ConfigError
  invalid_sidecar_request_timeout : ConfigError
  invalid_listener_tls_policy : Text → Text → Text → ConfigError
  invalid_required_auth_policy missing_required_auth_token : ConfigError
