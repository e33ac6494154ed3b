-- ===== src/Store/Redis/Rounds.antt =====
-- The parts that the loops of src/store/redis.rs share, as far as the log goes.
use pingora_reverse_proxy.Prelude.{
  ◌≡◌, refl, sym, Bool, true, false, Option, none, some, List, ok, err, Text, arith,
}
use pingora_reverse_proxy.Route.{RouteData}
use pingora_reverse_proxy.Store.{StoreError}
use pingora_reverse_proxy.Store.Contract.{is_indeterminate}
use pingora_reverse_proxy.Store.Redis.{
  Server, Json, RedisStore, Run, dropped, encoding, encode, decode, after_exec, with_connection,
  with_kept, with_new,
}
use pingora_reverse_proxy.Store.Redis.Script.{Hash}
use pingora_reverse_proxy.Store.Redis.Log.{Idle, same, IsServer, Ends, IsFree}

module _ {W X V : Type 0} (server : Server W) (json : Json X V) where
  -- An error that drops the connection.
  pub dropped-Ends :
      {A : Type 0} (P : A → List (Hash × Hash) → Type 0) (l : List (Hash × Hash)) (e : StoreError)
      (w : W)
      → (is_indeterminate e ≡ false → Idle l (server.mine w))
      → Ends server P l (dropped {W = W} {A = A} (err e) w)
  dropped-Ends P l e w h = (h, λ kept. cc (kept))

  pub after_exec-Ends :
      {A : Type 0} (P : A → List (Hash × Hash) → Type 0) (l : List (Hash × Hash)) (operation : Text)
      (a : A) (again : W → Run W A) (r : Option Bool × W)
      → ((b : Bool) (w : W) → r ≡ (some b, w) → server.watched w ≡ none)
      → ((w : W) → r ≡ (some false, w) → Ends server P l (again w))
      → ((w : W) → r ≡ (some true, w) → P a (server.mine w))
      → Ends server P l (after_exec server json operation a again r)
  after_exec-Ends P l operation a again (none, w) free aborted done =
      (λ h. cc (h), λ kept. cc (kept))
  after_exec-Ends P l operation a again (some true, w) free aborted done =
      (done w refl, λ kept. free true w refl)
  after_exec-Ends P l operation a again (some false, w) free aborted done = aborted w refl

  with_new-Ends :
      {A : Type 0} (P : A → List (Hash × Hash) → Type 0) (l : List (Hash × Hash)) (operation : Text)
      (r : Option (Unit {0}) × W) (body : W → Run W A)
      → l ≡ server.mine r.1
      → ((w : W) → r ≡ (some tt, w) → server.watched w ≡ none)
      → ((w : W) → l ≡ server.mine w → server.watched w ≡ none → Ends server P l (body w))
      → Ends server P l (with_new server json operation r body)
  with_new-Ends P l operation (none, w) body e free h = (λ _. rw (e) same, λ kept. cc (kept))
  with_new-Ends P l operation (some _, w) body e free h = h w e (free w refl)

  with_kept-Ends :
      {A : Type 0} (P : A → List (Hash × Hash) → Type 0)
      → IsServer server
      → (operation : Text) (kept : Bool) (w : W) (body : W → Run W A)
      → (kept ≡ true → server.watched w ≡ none)
      → ((w' : W)
          → server.mine w ≡ server.mine w'
          → server.watched w' ≡ none
          → Ends server P (server.mine w) (body w'))
      → Ends server P (server.mine w) (with_kept server json operation kept w body)
  with_kept-Ends P law operation true w body free h = h w refl (free refl)
  with_kept-Ends P law operation false w body free h =
      with_new-Ends P (server.mine w) operation (server.connect w) body (sym (law.connect_mine w))
        (law.connect_watched w) h

  -- An operation begins on a connection that is free.
  pub with_connection-Ends :
      {A : Type 0} (P : A → List (Hash × Hash) → Type 0)
      → IsServer server
      → (operation : Text) (store : RedisStore W) (body : W → Run W A) → IsFree server store
      → ((w : W)
          → server.mine store.world ≡ server.mine w
          → server.watched w ≡ none
          → Ends server P (server.mine store.world) (body w))
      → Ends server P (server.mine store.world) (with_connection server json operation store body)
  unfolding with_connection
  with_connection-Ends P law operation store body free h =
      with_kept-Ends P law operation store.connected store.world body free h

  pub encode-eq-ok :
      (operation : Text) (route : RouteData X) (encoded : Text)
      → encode server json operation route ≡ ok encoded
      → encoding json route ≡ some encoded
  unfolding encode
  encode-eq-ok operation route encoded h = ground arith

  pub decode-eq-ok :
      (operation key encoded : Text) (route : RouteData X)
      → decode server json operation key encoded ≡ ok route
      → json.from_str encoded ≡ some route
  unfolding decode
  decode-eq-ok operation key encoded route h = ground arith
