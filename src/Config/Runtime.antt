-- ===== src/Config/Runtime.antt =====
-- What src/config.rs reads of the environment. The url and redis crates are parameters.
use pingora_reverse_proxy.Prelude.{
  ℕ, ◌+◌, ◌-◌, ◌*◌, ◌^◌, Bool, true, false, not, ◌&&◌, ◌||◌, Option, none, some, [], ◌∷◌, Result,
  ok, err, ◌>>=◌, ◌==◌, ltb, is_empty, if◌then◌else◌, Text, text, text_eq,
}
use pingora_reverse_proxy.Config.{
  StoreConfig, memory, redis, sidecar, Url, RedisRuntimeConfig, SidecarRuntimeConfig, ConfigError,
  missing_redis_url, invalid_redis_url, invalid_redis_route_key, invalid_redis_operation_timeout,
  missing_sidecar_url, invalid_sidecar_url, missing_sidecar_bearer_token,
  invalid_sidecar_connect_timeout, invalid_sidecar_request_timeout, invalid_required_auth_policy,
}
use pingora_reverse_proxy.Config.Values.{is_some}
use pingora_reverse_proxy.Upstream.Paths.{is_digit}

pub data VarError : Type 0 where
  not_present not_unicode : VarError

-- `env::var` and `env::var_os`.
pub record Env : Type 0 where
  pub var : Text → Result VarError Text
  pub var_os : Text → Option Text

-- The digits after `total`, below 2^64.
abbrev pub next_digit : ℕ → ℕ → Option ℕ
next_digit total b =
    if is_digit b && ltb (total * 10 + (b - 48)) (2 ^ 64)
    then some (total * 10 + (b - 48))
    else none

abbrev pub and_then : {A B : Type 0} → Option A → (A → Option B) → Option B
and_then none f = none
and_then (some a) f = f a

unfoldable pub digits_from : ℕ → Text → Option ℕ
digits_from total [] = some total
digits_from total (b ∷ value) = and_then (next_digit total b) (λ n. digits_from n value)

-- `parse::<u64>`, which takes a leading plus sign and no empty number.
unfoldable pub parse_u64 : Text → Option ℕ
unfolding digits_from
parse_u64 [] = none
parse_u64 (b ∷ []) = digits_from 0 (b ∷ [])
parse_u64 (b ∷ c ∷ value) =
    if b == 43 then digits_from 0 (c ∷ value) else digits_from 0 (b ∷ c ∷ value)

abbrev pub positive : ConfigError → Option ℕ → Result ConfigError ℕ
positive invalid none = err invalid
positive invalid (some n) = if n == 0 then err invalid else ok n

abbrev pub ok_or : {A : Type 0} → ConfigError → Option A → Result ConfigError A
ok_or e none = err e
ok_or e (some a) = ok a

abbrev pub nonempty : Result VarError Text → Option Text
nonempty (err e) = none
nonempty (ok value) = if is_empty value then none else some value

module _ (env : Env) where
  unfoldable pub env_nonempty : Text → Option Text
  env_nonempty name = nonempty (env.var name)

  abbrev pub duration : ℕ → ConfigError → Result VarError Text → Result ConfigError ℕ
  duration default_ms invalid (ok value) = positive invalid (parse_u64 value)
  duration default_ms invalid (err not_present) = ok default_ms
  duration default_ms invalid (err not_unicode) = err invalid

  unfoldable pub positive_duration_from_env : Text → ℕ → ConfigError → Result ConfigError ℕ
  unfolding parse_u64
  positive_duration_from_env name default_ms invalid = duration default_ms invalid (env.var name)

  abbrev pub policy : Option Text → Result ConfigError Bool
  policy none = ok false
  policy (some value) =
      if text_eq value (text "true")
      then ok true
      else (if text_eq value (text "false") then ok false else err invalid_required_auth_policy)

  unfoldable pub parse_required_auth_policy : Result ConfigError Bool
  unfolding text_eq
  parse_required_auth_policy = policy (env.var_os (text "PINGORA_REQUIRE_AUTH_TOKEN"))

  abbrev pub route_key : Result VarError Text → Result ConfigError Text
  route_key (ok value) = if is_empty value then err invalid_redis_route_key else ok value
  route_key (err not_present) = ok (text "pingora-reverse-proxy:routes:v1")
  route_key (err not_unicode) = err invalid_redis_route_key

  abbrev pub redis_runtime : (Text → Bool) → Result ConfigError (Option RedisRuntimeConfig)
  redis_runtime parses = do
    url ← ok_or missing_redis_url (env_nonempty (text "PINGORA_REDIS_URL"))
    _ ← if parses url then ok tt else err invalid_redis_url
    key ← route_key (env.var (text "PINGORA_REDIS_ROUTE_KEY"))
    operation_timeout ←
        positive_duration_from_env (text "PINGORA_REDIS_OPERATION_TIMEOUT_MS") 2000
          invalid_redis_operation_timeout
    ok (some (record { url = url; route_key = key; operation_timeout = operation_timeout }))

  unfoldable pub parse_redis_runtime :
      (Text → Bool) → StoreConfig → Result ConfigError (Option RedisRuntimeConfig)
  unfolding env_nonempty positive_duration_from_env
  parse_redis_runtime parses memory = ok none
  parse_redis_runtime parses redis = redis_runtime parses
  parse_redis_runtime parses sidecar = ok none

  abbrev pub is_origin : Url → Bool
  is_origin url =
      (text_eq url.scheme (text "http") || text_eq url.scheme (text "https"))
      && (is_some url.host_str
          && (is_empty url.username
              && (not (is_some url.password)
                  && (text_eq url.path (text "/")
                      && (not (is_some url.query) && not (is_some url.fragment))))))

  abbrev pub origin : Option Url → Result ConfigError (Unit {0})
  origin none = err invalid_sidecar_url
  origin (some url) = if is_origin url then ok tt else err invalid_sidecar_url

  abbrev pub sidecar_runtime :
      (Text → Option Url) → Result ConfigError (Option SidecarRuntimeConfig)
  sidecar_runtime parse = do
    url ← ok_or missing_sidecar_url (env_nonempty (text "PINGORA_SIDECAR_URL"))
    _ ← origin (parse url)
    bearer_token ←
        ok_or missing_sidecar_bearer_token (env_nonempty (text "PINGORA_SIDECAR_BEARER_TOKEN"))
    connect_timeout ←
        positive_duration_from_env (text "PINGORA_SIDECAR_CONNECT_TIMEOUT_MS") 1000
          invalid_sidecar_connect_timeout
    request_timeout ←
        positive_duration_from_env (text "PINGORA_SIDECAR_REQUEST_TIMEOUT_MS") 2000
          invalid_sidecar_request_timeout
    ok (
        some (record {
          url = url;
          bearer_token = bearer_token;
          connect_timeout = connect_timeout;
          request_timeout = request_timeout;
        }))

  unfoldable pub parse_sidecar_runtime :
      (Text → Option Url) → StoreConfig → Result ConfigError (Option SidecarRuntimeConfig)
  unfolding env_nonempty positive_duration_from_env text_eq
  parse_sidecar_runtime parse memory = ok none
  parse_sidecar_runtime parse redis = ok none
  parse_sidecar_runtime parse sidecar = sidecar_runtime parse
