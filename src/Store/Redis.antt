-- ===== src/Store/Redis.antt =====
-- src/store/redis.rs: the store in one Redis hash. The server with its other clients, serde_json and
-- chrono are parameters.
pub mod Script
pub mod Log
pub mod Rounds
pub mod Replaced
pub mod Updated
pub mod Update
pub mod Deleted
pub mod Keys
pub mod Load
use pingora_reverse_proxy.Prelude.{
  ℕ, zero, suc, ◌≡◌, Bool, true, false, Option, none, some, List, [], ◌∷◌, Result, ok, err, Text,
  text,
}
use pingora_reverse_proxy.Map.{Map, get, insert, remove}
use pingora_reverse_proxy.Map.Order.{text_ord}
use pingora_reverse_proxy.Route.{RouteKey, RouteData, Instant}
use pingora_reverse_proxy.Store.{
  ActivityFloor, current, later, StoreError, backend, indeterminate, corrupt_data,
}
use pingora_reverse_proxy.Store.Memory.{raised_to}
use pingora_reverse_proxy.Store.Redis.Script.{Hash, ScriptReply, delete_script}

-- The state of the server and of one connection to it. `none` is a command that failed: it timed
-- out, or its reply was lost. `mine` is what the write commands of this client have done, each as
-- the hash before and after it, the latest first; `watched` is the hash that a `WATCH` protects.
pub record Server (W : Type 0) : Type 0 where
  pub hash : W → Hash
  pub mine : W → List (Hash × Hash)
  pub watched : W → Option Hash
  pub connect : W → Option (Unit {0}) × W
  pub ping : W → Option (Unit {0}) × W
  pub watch : W → Option (Unit {0}) × W
  pub unwatch : W → Option (Unit {0}) × W
  pub hget : Text → W → Option (Option Text) × W
  pub hgetall : W → Option Hash × W
  pub hset : Text → Text → W → Option (Unit {0}) × W
  -- `MULTI`, `HSET`, `EXEC`: `some false` is an aborted transaction.
  pub exec : Text → Text → W → Option Bool × W
  pub eval : (Hash → ScriptReply × Hash) → W → Option ScriptReply × W

-- What the code uses of serde_json, whose values are `V`, and of chrono; `none` is an error.
-- `to_value` is followed by `as_object_mut`, which refuses a value that is no object.
pub record Json (X V : Type 0) : Type 0 where
  pub to_value : RouteData X → Option (Map Text V)
  pub string : Text → V
  pub to_string : Map Text V → Option Text
  pub from_str : Text → Option (RouteData X)
  pub to_rfc3339_nanos : Instant → Text

-- `RedisStore`: whether a connection is kept, and the world that it leads to.
pub record RedisStore (W : Type 0) : Type 0 where
  pub connected : Bool
  pub world : W

abbrev pub Run : Type 0 → Type 0 → Type 0
Run W A = Result StoreError A × RedisStore W

-- A return that drops the connection, and one that keeps it.
abbrev pub dropped : {W A : Type 0} → Result StoreError A → W → Run W A
dropped r w = (r, record { connected = false; world = w })

abbrev pub returned : {W A : Type 0} → Result StoreError A → W → Run W A
returned r w = (r, record { connected = true; world = w })

-- The object of a route, with its instant written again to the nanosecond.
unfoldable pub encoding : {X V : Type 0} → Json X V → RouteData X → Option Text
encoding json route = elim (json.to_value route) [
  | none ↦ none
  | some object ↦ json.to_string (
      insert (text "last_activity") (json.string (json.to_rfc3339_nanos route.last_activity))
        object)
]

module _ {W X V : Type 0} (server : Server W) (json : Json X V) where
  -- `encode` and `decode`.
  unfoldable pub encode : Text → RouteData X → Result StoreError Text
  unfolding encoding
  encode operation route = elim (encoding json route) [
    | none ↦ err (corrupt_data operation (text "<outgoing>"))
    | some encoded ↦ ok encoded
  ]

  unfoldable pub decode : Text → Text → Text → Result StoreError (RouteData X)
  decode operation key encoded = elim (json.from_str encoded) [
    | none ↦ err (corrupt_data operation key)
    | some route ↦ ok route
  ]

  -- `take_connection`, and the operation on the connection.
  abbrev pub with_new : {A : Type 0} → Text → Option (Unit {0}) × W → (W → Run W A) → Run W A
  with_new operation (none, w) body = dropped (err (backend operation)) w
  with_new operation (some _, w) body = body w

  abbrev pub with_kept : {A : Type 0} → Text → Bool → W → (W → Run W A) → Run W A
  with_kept operation true w body = body w
  with_kept operation false w body = with_new operation (server.connect w) body

  unfoldable pub with_connection : {A : Type 0} → Text → RedisStore W → (W → Run W A) → Run W A
  with_connection operation store body = with_kept operation store.connected store.world body

  -- The end of a round, after the transaction; `again` is the next round.
  abbrev pub after_exec : {A : Type 0} → Text → A → (W → Run W A) → Option Bool × W → Run W A
  after_exec operation result again (none, w) = dropped (err (indeterminate operation)) w
  after_exec operation result again (some true, w) = returned (ok result) w
  after_exec operation result again (some false, w) = again w

  -- A round of `atomic_replace` from its last check of the deadline on. `next` is `none` if the
  -- deadline has passed.
  abbrev pub replace_decoded :
      Text
      → RouteKey
      → Text
      → Option (RouteData X → W → Run W (RouteData X))
      → RouteData X
      → Result StoreError (RouteData X)
      → W
      → Run W (RouteData X)
  replace_decoded operation key encoded next route (err e) w = dropped (err e) w
  replace_decoded operation key encoded none route (ok committed) w =
      dropped (err (backend operation)) w
  replace_decoded operation key encoded (some again) route (ok committed) w =
      after_exec operation committed (again route) (server.exec key encoded w)

  abbrev pub replace_encoded :
      Text
      → RouteKey
      → Option (RouteData X → W → Run W (RouteData X))
      → RouteData X
      → Result StoreError Text
      → W
      → Run W (RouteData X)
  replace_encoded operation key next route (err e) w = dropped (err e) w
  replace_encoded operation key next route (ok encoded) w =
      replace_decoded operation key encoded next route (decode operation key encoded) w

  -- `data.last_activity = data.last_activity.max(floor)`.
  abbrev pub raised : ActivityFloor → RouteData X → RouteData X
  raised floor route = record route {
    last_activity = raised_to (current floor) route.last_activity;
  }

  abbrev pub replace_watched :
      Text
      → RouteKey
      → ActivityFloor
      → Option (RouteData X → W → Run W (RouteData X))
      → RouteData X
      → Option (Unit {0}) × W
      → Run W (RouteData X)
  replace_watched operation key floor next route (none, w) = dropped (err (backend operation)) w
  replace_watched operation key floor next route (some _, w) =
      replace_encoded operation key next (raised floor route)
        (encode operation (raised floor route)) w

  -- The loop of `atomic_replace`. The number counts the checks of the deadline that it still meets; each
  -- round calls the floor once.
  unfoldable pub replace_loop :
      ℕ → Text → RouteKey → ActivityFloor → RouteData X → W → Run W (RouteData X)
  unfolding encode decode
  replace_loop zero operation key floor route w = dropped (err (backend operation)) w
  replace_loop (suc zero) operation key floor route w =
      replace_watched operation key floor none route (server.watch w)
  replace_loop (suc (suc checks)) operation key floor route w =
      replace_watched operation key floor (some (replace_loop checks operation key (later floor)))
        route (server.watch w)

  unfoldable pub atomic_replace :
      ℕ → Text → RouteKey → ActivityFloor → RouteData X → RedisStore W → Run W (RouteData X)
  unfolding with_connection replace_loop
  atomic_replace checks operation key floor route store =
      with_connection operation store (replace_loop checks operation key floor route)

  unfoldable pub add :
      ℕ → Instant → RouteKey → Text → X → ActivityFloor → RedisStore W → Run W (RouteData X)
  unfolding atomic_replace
  add checks now key target extra floor store =
      atomic_replace checks (text "add") key floor
        (record { target = target; last_activity = now; extra = extra }) store

  unfoldable pub put_preserving_activity :
      ℕ → RouteKey → RouteData X → ActivityFloor → RedisStore W → Run W (RouteData X)
  unfolding atomic_replace
  put_preserving_activity checks key route floor store =
      atomic_replace checks (text "put") key floor route store

  abbrev pub put_sent : Option (Unit {0}) × W → Run W (Unit {0})
  put_sent (none, w) = dropped (err (indeterminate (text "put"))) w
  put_sent (some _, w) = returned (ok tt) w

  abbrev pub put_pinged : RouteKey → Text → Option (Unit {0}) × W → Run W (Unit {0})
  put_pinged key encoded (none, w) = dropped (err (backend (text "put"))) w
  put_pinged key encoded (some _, w) = put_sent (server.hset key encoded w)

  abbrev pub put_encoded : RouteKey → Result StoreError Text → RedisStore W → Run W (Unit {0})
  put_encoded key (err e) store = (err e, store)
  put_encoded key (ok encoded) store =
      with_connection (text "put") store (λ w. put_pinged key encoded (server.ping w))

  unfoldable pub put : RouteKey → RouteData X → RedisStore W → Run W (Unit {0})
  unfolding encode with_connection
  put key route store = put_encoded key (encode (text "put") route) store
