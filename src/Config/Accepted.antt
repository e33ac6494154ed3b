-- ===== src/Config/Accepted.antt =====
-- The configurations that src/config.rs accepts are valid.
use pingora_reverse_proxy.Prelude.{
  ◌≡◌, refl, Bool, true, false, not, ◌&&◌, ◌||◌, Option, Result, ok, Text, text, arith,
}
use pingora_reverse_proxy.Config.{
  Cli, AppConfig, ConfigError, unsupported_client_tls_flag, rc4_unsupported,
  conflicting_error_handlers, redirect_without_tls, missing_required_auth_token,
}
use pingora_reverse_proxy.Config.Load.{
  Parsers, reject_if, public_policy, api_policy, policies, pairs, validate, inherited_of,
  api_listener_of, try_from,
}
use pingora_reverse_proxy.Config.Runtime.{
  Env, parse_required_auth_policy, env_nonempty, parse_redis_runtime, parse_sidecar_runtime,
}
use pingora_reverse_proxy.Config.Valid.{
  HasPair, HasRedis, HasSidecar, IsValid, Ensures, ensured, rejected, bind-Ensures, then-Ensures,
  Ensures-ok, validate_pair-ok, policy-ok, tls_config-IsServing, tls_config-HasPair,
}
use pingora_reverse_proxy.Config.Settings.{redis-Ensures, sidecar-Ensures}
use pingora_reverse_proxy.Config.Values.{
  is_some, is_filled, unwrap_or, nonzero_port, validate_pair, tls_config, parse_target,
  parse_error_target, parse_log_level, parse_store, parse_custom_headers,
}

-- What the first checks leave.
record Validated (cli : Cli) : Type 0 where
  public_pair : is_some cli.ssl_key ≡ is_some cli.ssl_cert
  api_pair : is_some cli.api_ssl_key ≡ is_some cli.api_ssl_cert
  public_policy :
      cli.ssl_reject_unauthorized ≡ true
      → (cli.ssl_request_cert ≡ true) × (is_filled cli.ssl_ca ≡ true)
  api_policy :
      cli.api_ssl_reject_unauthorized ≡ true
      → (cli.api_ssl_request_cert ≡ true) × (is_filled cli.api_ssl_ca ≡ true)
  redirect :
      (is_some (nonzero_port cli.redirect_port)
        && (not (is_some cli.ssl_key) || not (is_some cli.ssl_cert)))
      ≡ false

redirects-Ensures :
    (cli : Cli) (e : ConfigError) (b : Bool)
    → (is_some (nonzero_port cli.redirect_port)
        && (not (is_some cli.ssl_key) || not (is_some cli.ssl_cert)))
      ≡ b
    → is_some cli.ssl_key ≡ is_some cli.ssl_cert
    → is_some cli.api_ssl_key ≡ is_some cli.api_ssl_cert
    → (cli.ssl_reject_unauthorized ≡ true
        → (cli.ssl_request_cert ≡ true) × (is_filled cli.ssl_ca ≡ true))
    → (cli.api_ssl_reject_unauthorized ≡ true
        → (cli.api_ssl_request_cert ≡ true) × (is_filled cli.api_ssl_ca ≡ true))
    → Ensures (λ u. Validated cli) (reject_if b e)
redirects-Ensures cli e true h pair api policy api_policy = rejected
redirects-Ensures cli e false h pair api policy api_policy = ensured (record {
  public_pair = pair;
  api_pair = api;
  public_policy = policy;
  api_policy = api_policy;
  redirect = h;
})

policies-Ensures :
    (cli : Cli)
    → is_some cli.ssl_key ≡ is_some cli.ssl_cert
    → is_some cli.api_ssl_key ≡ is_some cli.api_ssl_cert
    → Ensures (λ u. Validated cli) (policies cli)
policies-Ensures cli pair api = then-Ensures (public_policy cli) (λ policy.
    then-Ensures (api_policy cli) (λ other.
      redirects-Ensures cli redirect_without_tls _ refl pair api (policy-ok _ _ _ _ _ _ tt policy)
        (policy-ok _ _ _ _ _ _ tt other)))

pairs-Ensures : (cli : Cli) → Ensures (λ u. Validated cli) (pairs cli)
pairs-Ensures cli =
    then-Ensures (validate_pair cli.ssl_key cli.ssl_cert (text "--ssl-key and --ssl-cert")) (λ pair.
      then-Ensures
        (validate_pair cli.api_ssl_key cli.api_ssl_cert (text "--api-ssl-key and --api-ssl-cert"))
        (λ api.
          then-Ensures
            (validate_pair cli.client_ssl_key cli.client_ssl_cert
              (text "--client-ssl-key and --client-ssl-cert"))
            (λ _.
              policies-Ensures cli (validate_pair-ok _ _ _ tt pair)
                (validate_pair-ok _ _ _ tt api))))

validate-Ensures : (cli : Cli) → Ensures (λ u. Validated cli) (validate cli)
unfolding validate
validate-Ensures cli =
    then-Ensures
      (reject_if cli.client_ssl_request_cert
        (unsupported_client_tls_flag (text "--client-ssl-request-cert")))
      (λ _.
        then-Ensures
          (reject_if cli.client_ssl_reject_unauthorized
            (unsupported_client_tls_flag (text "--client-ssl-reject-unauthorized")))
          (λ _. then-Ensures (reject_if cli.ssl_allow_rc4 rc4_unsupported) (λ _.
            then-Ensures
              (reject_if (is_some cli.error_target && is_some cli.error_path)
                conflicting_error_handlers)
              (λ _. pairs-Ensures cli))))

Ensures-at : {E A : Type 0} (P : A → Type 0) (r : Result E A) (a : A) → Ensures P r → r ≡ ok a → P a
Ensures-at P r a e h = Ensures-ok (rw (h) at e)

-- A required token that is there, from the check that rejects its absence.
token-required :
    (e : ConfigError) (required b : Bool) (token : Option Text)
    → reject_if (required && not (is_some token)) e ≡ ok tt
    → required ≡ b
    → b ≡ true
    → is_some token ≡ true
token-required e required b token h r t = ground arith

same_value : {r : Result ConfigError Bool} {a b : Bool} → r ≡ ok a → r ≡ ok b → a ≡ b
same_value h k = cc (h, k)

redirect_pair : (a b : Bool) → (a && b) ≡ false → a ≡ true → b ≡ false
redirect_pair a b h k = ground arith

module _ (parsers : Parsers) (env : Env) (cli : Cli) where
  redirect-HasPair :
      (passphrase : Option Text)
      → Validated cli
      → is_some (nonzero_port cli.redirect_port) ≡ true
      → HasPair (
          tls_config cli.ssl_key cli.ssl_cert cli.ssl_ca passphrase cli.ssl_request_cert
            cli.ssl_reject_unauthorized
            (inherited_of cli)
            false)
  redirect-HasPair passphrase v h =
      tls_config-HasPair cli.ssl_key cli.ssl_cert cli.ssl_ca passphrase cli.ssl_request_cert
        cli.ssl_reject_unauthorized (inherited_of cli) (redirect_pair _ _ v.redirect h)

  try_from-Ensures : Ensures (IsValid env) (try_from parsers env cli)
  unfolding try_from
  try_from-Ensures = then-Ensures (validate cli) (λ v.
      bind-Ensures (api_listener_of cli (unwrap_or 8000 (nonzero_port cli.port)) cli.api_socket)
        (λ api_listener _.
          bind-Ensures
            (parse_target parsers.from_utf8 parsers.parse_url cli.default_target
              (text "default target"))
            (λ default_target _.
              bind-Ensures (parse_error_target parsers.from_utf8 parsers.parse_url cli.error_target)
                (λ error_target _. bind-Ensures (parse_log_level cli.log_level) (λ log_level _.
                  bind-Ensures (parse_store cli.storage_backend) (λ store _.
                    bind-Ensures (parse_redis_runtime env parsers.parses_redis_url store)
                      (λ r is_redis.
                        bind-Ensures (parse_sidecar_runtime env parsers.parse_url store)
                          (λ s is_sidecar.
                            bind-Ensures (parse_custom_headers parsers.trim cli.custom_header)
                              (λ custom_headers _.
                                bind-Ensures (parse_required_auth_policy env)
                                  (λ required is_required.
                                    then-Ensures
                                      (reject_if
                                        (required
                                          && not (
                                              is_some
                                                (env_nonempty env (text "CONFIGPROXY_AUTH_TOKEN"))))
                                        missing_required_auth_token)
                                      (λ is_there.
                                        let checked =
                                          Ensures-ok (rw (v) at (validate-Ensures cli)) in
                                        ensured (record {
                                          public_tls =
                                              tls_config-IsServing _ _ _ _ _ _ (inherited_of cli)
                                                checked.public_pair checked.public_policy;
                                          api_tls =
                                              tls_config-IsServing _ _ _ _ _ _ (inherited_of cli)
                                                checked.api_pair checked.api_policy;
                                          redirects = redirect-HasPair _ checked;
                                          redis =
                                              Ensures-at (HasRedis store) _ r
                                                (redis-Ensures env parsers.parses_redis_url store)
                                                is_redis;
                                          sidecar =
                                              Ensures-at (HasSidecar store) _ s
                                                (sidecar-Ensures env parsers.parse_url store)
                                                is_sidecar;
                                          authenticates = λ h.
                                              token-required missing_required_auth_token required
                                                true
                                                (env_nonempty env (text "CONFIGPROXY_AUTH_TOKEN"))
                                                is_there (same_value is_required h) refl;
                                        }))))))))))))

-- If the options and the environment are accepted: the TLS of the public and of the API listener has
-- a key and a certificate, and rejects clients only if it asks for certificates and has an
-- authority; a redirect port comes with the public key and certificate; the settings of the Redis
-- and of the sidecar store are there exactly if that store is chosen, not empty and with timeouts
-- above zero; and a token is there if the environment requires one.
pub try_from-IsValid :
    (parsers : Parsers) (env : Env) (cli : Cli) (config : AppConfig)
    → try_from parsers env cli ≡ ok config
    → IsValid env config
try_from-IsValid parsers env cli config h =
    Ensures-at (IsValid env) (try_from parsers env cli) config (try_from-Ensures parsers env cli) h
