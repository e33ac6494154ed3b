-- ===== src/Config/Valid.antt =====
-- What every configuration that src/config.rs accepts satisfies.
use pingora_reverse_proxy.Prelude.{
  ℕ, ◌≡◌, ◌<◌, refl, Bool, true, false, not, ◌||◌, Option, none, some, Result, ok, err, ◌>>=◌, ◌>>◌,
  is_empty, Text, arith,
}
use pingora_reverse_proxy.Config.{
  AppConfig, TlsConfig, StoreConfig, memory, redis, sidecar, RedisRuntimeConfig,
  SidecarRuntimeConfig, ConfigError,
}
use pingora_reverse_proxy.Config.Load.{reject_if}
use pingora_reverse_proxy.Config.Runtime.{
  VarError, Env, positive, ok_or, nonempty, parse_required_auth_policy,
}
use pingora_reverse_proxy.Config.Values.{
  is_some, is_filled, validate_pair, validate_listener_tls_policy, InheritedTls, tls_config,
}

-- A listener's TLS has a key and a certificate, and rejects clients only if it asks for their
-- certificates and has an authority to check them.
abbrev pub IsServing : Option TlsConfig → Type 0
IsServing none = Unit
IsServing (some tls) =
    (is_some tls.key ≡ true)
    × (is_some tls.cert ≡ true)
    × (tls.reject_unauthorized ≡ true → (tls.request_cert ≡ true) × (is_filled tls.ca ≡ true))

-- The settings of a store are there exactly if it is the one in use.
abbrev pub HasRedis : StoreConfig → Option RedisRuntimeConfig → Type 0
HasRedis redis none = ⊥
HasRedis redis (some runtime) =
    (is_empty runtime.url ≡ false)
    × (is_empty runtime.route_key ≡ false)
    × (0 < runtime.operation_timeout)
HasRedis memory none = Unit
HasRedis memory (some runtime) = ⊥
HasRedis sidecar none = Unit
HasRedis sidecar (some runtime) = ⊥

abbrev pub HasSidecar : StoreConfig → Option SidecarRuntimeConfig → Type 0
HasSidecar sidecar none = ⊥
HasSidecar sidecar (some runtime) =
    (is_empty runtime.url ≡ false)
    × (is_empty runtime.bearer_token ≡ false)
    × (0 < runtime.connect_timeout)
    × (0 < runtime.request_timeout)
HasSidecar memory none = Unit
HasSidecar memory (some runtime) = ⊥
HasSidecar redis none = Unit
HasSidecar redis (some runtime) = ⊥

abbrev pub HasPair : Option TlsConfig → Type 0
HasPair none = ⊥
HasPair (some tls) = (is_some tls.key ≡ true) × (is_some tls.cert ≡ true)

pub record IsValid (env : Env) (config : AppConfig) : Type 0 where
  pub public_tls : IsServing config.public_tls
  pub api_tls : IsServing config.api_tls
  pub redirects : is_some config.redirect_port ≡ true → HasPair config.public_tls
  pub redis : HasRedis config.store config.redis
  pub sidecar : HasSidecar config.store config.sidecar
  pub authenticates : parse_required_auth_policy env ≡ ok true → is_some config.auth_token ≡ true

-- What holds of a result that is no error.
pub data Ensures {E A : Type 0} (P : A → Type 0) : Result E A → Type 0 where
  ensured : {a : A} → P a → Ensures P (ok a)
  rejected : {e : E} → Ensures P (err e)

pub bind-Ensures :
    {E A B : Type 0} {P : B → Type 0} (r : Result E A) {f : A → Result E B}
    → ((a : A) → r ≡ ok a → Ensures P (f a))
    → Ensures P (r >>= f)
bind-Ensures (ok a) h = h a refl
bind-Ensures (err e) h = rejected

pub then-Ensures :
    {E B : Type 0} {P : B → Type 0} (r : Result E (Unit {0})) {k : Result E B}
    → (r ≡ ok tt → Ensures P k)
    → Ensures P (r >> k)
then-Ensures (ok a) h = h refl
then-Ensures (err e) h = rejected

pub Ensures-ok : {E A : Type 0} {P : A → Type 0} {a : A} → Ensures {E = E} P (ok a) → P a
Ensures-ok (ensured p) = p

pub reject_if-ok : (b : Bool) (e : ConfigError) (u : Unit {0}) → reject_if b e ≡ ok u → b ≡ false
reject_if-ok true e u h = cc
reject_if-ok false e u h = refl

pub validate_pair-ok :
    (key cert : Option Text) (names : Text) (u : Unit {0})
    → validate_pair key cert names ≡ ok u
    → is_some key ≡ is_some cert
unfolding validate_pair
validate_pair-ok none none names u h = refl
validate_pair-ok none (some c) names u h = cc
validate_pair-ok (some k) none names u h = cc
validate_pair-ok (some k) (some c) names u h = refl

pub policy-ok :
    (reject request : Bool) (ca : Option Text) (a b c : Text) (u : Unit {0})
    → validate_listener_tls_policy reject request ca a b c ≡ ok u
    → reject ≡ true
    → (request ≡ true) × (is_filled ca ≡ true)
unfolding validate_listener_tls_policy
policy-ok reject request ca a b c u h k = ground arith

pub positive-ok : (e : ConfigError) (o : Option ℕ) (n : ℕ) → positive e o ≡ ok n → 0 < n
positive-ok e none n h = cc
positive-ok e (some m) n h = ground arith

pub ok_or-nonempty :
    (e : ConfigError) (r : Result VarError Text) (value : Text)
    → ok_or e (nonempty r) ≡ ok value
    → is_empty value ≡ false
ok_or-nonempty e (err x) value h = cc
ok_or-nonempty e (ok v) value h = ground arith

pub tls_config-IsServing :
    (key cert ca passphrase : Option Text) (request reject : Bool) (inherited : InheritedTls)
    → is_some key ≡ is_some cert
    → (reject ≡ true → (request ≡ true) × (is_filled ca ≡ true))
    → IsServing (tls_config key cert ca passphrase request reject inherited false)
unfolding tls_config
tls_config-IsServing none none ca passphrase request reject inherited p h = tt
tls_config-IsServing none (some c) ca passphrase request reject inherited p h = cc
tls_config-IsServing (some k) none ca passphrase request reject inherited p h = cc
tls_config-IsServing (some k) (some c) ca passphrase request reject inherited p h = (refl, refl, h)

pub tls_config-HasPair :
    (key cert ca passphrase : Option Text) (request reject : Bool) (inherited : InheritedTls)
    → (not (is_some key) || not (is_some cert)) ≡ false
    → HasPair (tls_config key cert ca passphrase request reject inherited false)
unfolding tls_config
tls_config-HasPair none cert ca passphrase request reject inherited h = cc
tls_config-HasPair (some k) none ca passphrase request reject inherited h = cc
tls_config-HasPair (some k) (some c) ca passphrase request reject inherited h = (refl, refl)
