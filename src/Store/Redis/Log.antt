-- ===== src/Store/Redis/Log.antt =====
-- What a client of the Redis server relies on, and what its log then tells.
use pingora_reverse_proxy.Prelude.{
  ◌≡◌, Bool, true, false, Option, none, some, List, ◌∷◌, Result, ok, err, Text,
}
use pingora_reverse_proxy.Map.{get, insert}
use pingora_reverse_proxy.Map.Order.{text_ord}
use pingora_reverse_proxy.Store.{StoreError}
use pingora_reverse_proxy.Store.Contract.{is_indeterminate}
use pingora_reverse_proxy.Store.Redis.{Server, RedisStore, Run}
use pingora_reverse_proxy.Store.Redis.Script.{Hash, ScriptReply}

-- A log of writes as pairs of the hash before and after; `Idle` adds writes that change nothing.
pub data Idle (l : List (Hash × Hash)) : List (Hash × Hash) → Type 0 where
  same : Idle l l
  again : {l' : List (Hash × Hash)} (h : Hash) → Idle l l' → Idle l ((h, h) ∷ l')

pub Idle-trans : {a b c : List (Hash × Hash)} → Idle a b → Idle b c → Idle a c
Idle-trans i same = i
Idle-trans i (again h j) = again h (Idle-trans i j)

module _ {W : Type 0} (server : Server W) where
  -- A read, and a successful transaction, are atomic. Commands of other clients may change the hash
  -- before any command, so nothing is said of the hash but at the command itself.
  pub record IsServer : Type 0 where
    pub connect_mine : (w : W) → server.mine (server.connect w).1 ≡ server.mine w
    pub connect_watched : (w w' : W) → server.connect w ≡ (some tt, w') → server.watched w' ≡ none
    pub ping_mine : (w : W) → server.mine (server.ping w).1 ≡ server.mine w
    pub ping_watched : (w : W) → server.watched (server.ping w).1 ≡ server.watched w
    pub watch_mine : (w : W) → server.mine (server.watch w).1 ≡ server.mine w
    pub watch_watched :
        (w w' : W) → server.watch w ≡ (some tt, w') → server.watched w' ≡ some (server.hash w')
    pub unwatch_mine : (w : W) → server.mine (server.unwatch w).1 ≡ server.mine w
    pub unwatch_watched : (w w' : W) → server.unwatch w ≡ (some tt, w') → server.watched w' ≡ none
    pub hget_mine : (f : Text) (w : W) → server.mine (server.hget f w).1 ≡ server.mine w
    pub hget_watched : (f : Text) (w : W) → server.watched (server.hget f w).1 ≡ server.watched w
    pub hget_value :
        (f : Text) (w w' : W) (v : Option Text)
        → server.hget f w ≡ (some v, w')
        → v ≡ get f (server.hash w')
    pub hgetall_mine : (w : W) → server.mine (server.hgetall w).1 ≡ server.mine w
    pub hgetall_watched : (w : W) → server.watched (server.hgetall w).1 ≡ server.watched w
    pub hgetall_value : (w w' : W) (h : Hash) → server.hgetall w ≡ (some h, w') → h ≡ server.hash w'
    pub hset_watched :
        (f v : Text) (w : W) → server.watched (server.hset f v w).1 ≡ server.watched w
    pub hset_mine :
        (f v : Text) (w w' : W)
        → server.hset f v w ≡ (some tt, w')
        → (h : Hash) × (server.mine w' ≡ (h, insert f v h) ∷ server.mine w)
    pub exec_watched :
        (f v : Text) (w w' : W) (b : Bool)
        → server.exec f v w ≡ (some b, w')
        → server.watched w' ≡ none
    pub exec_aborted :
        (f v : Text) (w w' : W)
        → server.exec f v w ≡ (some false, w')
        → server.mine w' ≡ server.mine w
    -- A transaction succeeds only if the hash still is the one that was watched.
    pub exec_mine :
        (f v : Text) (w w' : W) (h : Hash)
        → server.watched w ≡ some h
        → server.exec f v w ≡ (some true, w')
        → (server.hash w ≡ h) × (server.mine w' ≡ (h, insert f v h) ∷ server.mine w)
    pub eval_watched :
        (s : Hash → ScriptReply × Hash) (w : W)
        → server.watched (server.eval s w).1 ≡ server.watched w
    pub eval_mine :
        (s : Hash → ScriptReply × Hash) (w w' : W) (r : ScriptReply)
        → server.eval s w ≡ (some r, w')
        → (h : Hash) × (r ≡ (s h).0) × (server.mine w' ≡ (h, (s h).1) ∷ server.mine w)

  -- One write that relates the hash before and after by `E`, and otherwise none that changes it.
  pub record Commits (E : Hash → Hash → Type 0) (l l' : List (Hash × Hash)) : Type 0 where
    pub before : Hash
    pub after : Hash
    pub idle : List (Hash × Hash)
    pub quiet : Idle l idle
    pub written : l' ≡ (before, after) ∷ idle
    pub effect : E before after

  -- Whether the connection that is kept is free of a `WATCH`.
  abbrev pub IsFree : RedisStore W → Type 0
  IsFree store = store.connected ≡ true → server.watched store.world ≡ none

  -- A success has the effect `P` on the log; an ordinary error has changed nothing; nothing is
  -- known of the log after an indeterminate one. The connection that is kept is free.
  abbrev pub Logs :
      {A : Type 0}
      → (A → List (Hash × Hash) → Type 0)
      → List (Hash × Hash)
      → Result StoreError A
      → List (Hash × Hash)
      → Type 0
  Logs P l (ok a) l' = P a l'
  Logs P l (err e) l' = is_indeterminate e ≡ false → Idle l l'

  abbrev pub Ends :
      {A : Type 0} → (A → List (Hash × Hash) → Type 0) → List (Hash × Hash) → Run W A → Type 0
  Ends P l r = Logs P l r.0 (server.mine r.1.world) × IsFree r.1
