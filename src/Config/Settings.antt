-- ===== src/Config/Settings.antt =====
-- The settings of the stores that src/config.rs reads from the environment.
use pingora_reverse_proxy.Prelude.{
  ℕ, ◌≡◌, ◌<◌, Bool, false, Option, Result, ok, err, is_empty, if◌then◌else◌, Text, text, arith,
}
use pingora_reverse_proxy.Config.{
  StoreConfig, memory, redis, sidecar, Url, ConfigError, missing_redis_url, invalid_redis_url,
  invalid_redis_operation_timeout, missing_sidecar_url, missing_sidecar_bearer_token,
  invalid_sidecar_connect_timeout, invalid_sidecar_request_timeout,
}
use pingora_reverse_proxy.Config.Runtime.{
  VarError, not_present, not_unicode, Env, ok_or, origin, duration, positive_duration_from_env,
  parse_u64, route_key, env_nonempty, parse_redis_runtime, parse_sidecar_runtime,
}
use pingora_reverse_proxy.Config.Valid.{
  HasRedis, HasSidecar, Ensures, ensured, bind-Ensures, positive-ok, ok_or-nonempty,
}

duration-positive :
    (env : Env) (e : ConfigError) (default_ms : ℕ) (r : Result VarError Text) (n : ℕ)
    → 0 < default_ms
    → duration env default_ms e r ≡ ok n
    → 0 < n
duration-positive env e default_ms (ok value) n d h = positive-ok e (parse_u64 value) n h
duration-positive env e default_ms (err not_present) n d h = ground arith
duration-positive env e default_ms (err not_unicode) n d h = cc

timeout-positive :
    (env : Env) (name : Text) (e : ConfigError) (default_ms n : ℕ)
    → 0 < default_ms
    → positive_duration_from_env env name default_ms e ≡ ok n
    → 0 < n
unfolding positive_duration_from_env
timeout-positive env name e default_ms n d h =
    duration-positive env e default_ms (env.var name) n d h

route_key-nonempty :
    (env : Env) (r : Result VarError Text) (key : Text)
    → route_key env r ≡ ok key
    → is_empty key ≡ false
route_key-nonempty env (ok value) key h = ground arith
route_key-nonempty env (err not_present) key h = ground arith
route_key-nonempty env (err not_unicode) key h = cc

setting-nonempty :
    (env : Env) (e : ConfigError) (name value : Text)
    → ok_or e (env_nonempty env name) ≡ ok value
    → is_empty value ≡ false
unfolding env_nonempty
setting-nonempty env e name value h = ok_or-nonempty e (env.var name) value h

pub redis-Ensures :
    (env : Env) (parses : Text → Bool) (store : StoreConfig)
    → Ensures (λ r. HasRedis store r) (parse_redis_runtime env parses store)
unfolding parse_redis_runtime
redis-Ensures env parses memory = ensured tt
redis-Ensures env parses sidecar = ensured tt
redis-Ensures env parses redis =
    bind-Ensures (ok_or missing_redis_url (env_nonempty env (text "PINGORA_REDIS_URL")))
      (λ url is_url. bind-Ensures (if parses url then ok tt else err invalid_redis_url) (λ _ _.
        bind-Ensures (route_key env (env.var (text "PINGORA_REDIS_ROUTE_KEY"))) (λ key is_key.
          bind-Ensures
            (positive_duration_from_env env (text "PINGORA_REDIS_OPERATION_TIMEOUT_MS") 2000
              invalid_redis_operation_timeout)
            (λ timeout is_timeout. ensured (
              setting-nonempty env missing_redis_url (text "PINGORA_REDIS_URL") url is_url,
              route_key-nonempty env _ key is_key,
              timeout-positive env _ _ 2000 timeout (omega arith) is_timeout,
            )))))

pub sidecar-Ensures :
    (env : Env) (parse : Text → Option Url) (store : StoreConfig)
    → Ensures (λ r. HasSidecar store r) (parse_sidecar_runtime env parse store)
unfolding parse_sidecar_runtime
sidecar-Ensures env parse memory = ensured tt
sidecar-Ensures env parse redis = ensured tt
sidecar-Ensures env parse sidecar =
    bind-Ensures (ok_or missing_sidecar_url (env_nonempty env (text "PINGORA_SIDECAR_URL")))
      (λ url is_url. bind-Ensures (origin env (parse url)) (λ _ _.
        bind-Ensures
          (ok_or missing_sidecar_bearer_token
            (env_nonempty env (text "PINGORA_SIDECAR_BEARER_TOKEN")))
          (λ token is_token.
            bind-Ensures
              (positive_duration_from_env env (text "PINGORA_SIDECAR_CONNECT_TIMEOUT_MS") 1000
                invalid_sidecar_connect_timeout)
              (λ connect is_connect.
                bind-Ensures
                  (positive_duration_from_env env (text "PINGORA_SIDECAR_REQUEST_TIMEOUT_MS") 2000
                    invalid_sidecar_request_timeout)
                  (λ request is_request. ensured (
                    setting-nonempty env missing_sidecar_url (text "PINGORA_SIDECAR_URL") url
                        is_url,
                    setting-nonempty env missing_sidecar_bearer_token
                        (text "PINGORA_SIDECAR_BEARER_TOKEN") token is_token,
                    timeout-positive env _ _ 1000 connect (omega arith) is_connect,
                    timeout-positive env _ _ 2000 request (omega arith) is_request,
                  ))))))
