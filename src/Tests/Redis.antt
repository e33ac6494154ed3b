-- ===== src/Tests/Redis.antt =====
-- The Redis store, against a server with one other client, which writes just before a transaction.
use pingora_reverse_proxy.Prelude.{
  ◌≡◌, ◌+◌, refl, Bool, true, false, Option, none, some, List, [], ◌∷◌, ok, Text, text, arith,
  if◌then◌else◌,
}
use pingora_reverse_proxy.Map.{get, insert}
use pingora_reverse_proxy.Map.Order.{text_ord}
use pingora_reverse_proxy.Route.{RouteData}
use pingora_reverse_proxy.Store.{ActivityFloor}
use pingora_reverse_proxy.Store.Redis.{Server, Json, RedisStore}
use pingora_reverse_proxy.Store.Redis.Update.{update_activity, delete}
use pingora_reverse_proxy.Store.Redis.Script.{Hash, ScriptReply}
use pingora_reverse_proxy.Store.Redis.Log.{IsServer, IsFree, Ends, Commits}
use pingora_reverse_proxy.Store.Redis.Updated.{Updates, update_activity-Ends}
use pingora_reverse_proxy.Store.Redis.Deleted.{Deletes, delete-Ends}
use pingora_reverse_proxy.Store.Redis.Keys.{decode_key, decode_key-eq-ok}
use pingora_reverse_proxy.Tests.Data.{helpers, user_key}

record World : Type 0 where
  hash : Hash
  mine : List (Hash × Hash)
  watching : Bool
  rivals : List (Text × Text)

watched : World → Option Hash
watched w = if w.watching then some w.hash else none

write : Text → Text → World → World
write f v w = record w {
  hash = insert f v w.hash;
  mine = (w.hash, insert f v w.hash) ∷ w.mine;
  watching = false;
}

hset : Text → Text → World → Option (Unit {0}) × World
unfolding write
hset f v w = if w.watching then (none, w) else (some tt, write f v w)

exec_with : List (Text × Text) → Text → Text → World → Option Bool × World
unfolding write
exec_with [] f v w = if w.watching then (some true, write f v w) else (some false, w)
exec_with ((g, u) ∷ rivals) f v w =
    (some false, record w { hash = insert g u w.hash; watching = false; rivals = rivals })

eval : (Hash → ScriptReply × Hash) → World → Option ScriptReply × World
eval s w = if w.watching then (none, w) else (
  some (s w.hash).0,
  record w { hash = (s w.hash).1; mine = (w.hash, (s w.hash).1) ∷ w.mine },
)

server : Server World
unfolding watched hset exec_with eval
server = record {
  hash = λ w. w.hash;
  mine = λ w. w.mine;
  watched = watched;
  connect = λ w. (some tt, record w { watching = false });
  ping = λ w. (some tt, w);
  watch = λ w. (some tt, record w { watching = true });
  unwatch = λ w. (some tt, record w { watching = false });
  hget = λ f w. (some (get f w.hash), w);
  hgetall = λ w. (some w.hash, w);
  hset = hset;
  exec = λ f v w. exec_with w.rivals f v w;
  eval = eval;
}

exec_watched :
    (f v : Text) (w w' : World) (b : Bool) (rivals : List (Text × Text))
    → exec_with rivals f v w ≡ (some b, w')
    → watched w' ≡ none
unfolding watched exec_with
exec_watched f v w w' b [] h = ground arith
exec_watched f v w w' b ((g, u) ∷ rivals) h = ground arith

exec_aborted :
    (f v : Text) (w w' : World) (rivals : List (Text × Text))
    → exec_with rivals f v w ≡ (some false, w')
    → w'.mine ≡ w.mine
unfolding exec_with
exec_aborted f v w w' [] h = ground arith
exec_aborted f v w w' ((g, u) ∷ rivals) h = ground arith

exec_mine :
    (f v : Text) (w w' : World) (h : Hash) (rivals : List (Text × Text))
    → watched w ≡ some h
    → exec_with rivals f v w ≡ (some true, w')
    → (w.hash ≡ h) × (w'.mine ≡ (h, insert f v h) ∷ w.mine)
unfolding watched exec_with
exec_mine f v w w' h [] k e = ground arith
exec_mine f v w w' h ((g, u) ∷ rivals) k e = cc (e)

server-IsServer : IsServer server
unfolding server
server-IsServer = record {
  connect_mine = λ w. refl;
  connect_watched = λ w w' h. ground arith;
  ping_mine = λ w. refl;
  ping_watched = λ w. refl;
  watch_mine = λ w. refl;
  watch_watched = λ w w' h. ground arith;
  unwatch_mine = λ w. refl;
  unwatch_watched = λ w w' h. ground arith;
  hget_mine = λ f w. refl;
  hget_watched = λ f w. refl;
  hget_value = λ f w w' v h. ground arith;
  hgetall_mine = λ w. refl;
  hgetall_watched = λ w. refl;
  hgetall_value = λ w w' v h. ground arith;
  hset_watched = λ f v w. ground arith;
  hset_mine = λ f v w w' h. (w.hash, ground arith);
  exec_watched = λ f v w w' b h. exec_watched f v w w' b w.rivals h;
  exec_aborted = λ f v w w' h. exec_aborted f v w w' w.rivals h;
  exec_mine = λ f v w w' h k e. exec_mine f v w w' h w.rivals k e;
  eval_watched = λ s w. ground arith;
  eval_mine = λ s w w' r h. (w.hash, ground arith, ground arith);
}

-- An object has the texts of its members, of which the target is read back.
abbrev json : Json (Unit {0}) Text
json = record {
  to_value = λ route. some ((text "target", route.target) ∷ []);
  string = λ t. t;
  to_string = λ object. get (text "target") object;
  from_str = λ t. some (record { target = t; last_activity = 0; extra = tt });
  to_rfc3339_nanos = λ at. (48 + at) ∷ [];
}

abbrev route : RouteData (Unit {0})
route = record { target = text "http://a"; last_activity = 0; extra = tt }

-- A rival writes once before the first transaction.
abbrev start : RedisStore World
start = record {
  connected = true;
  world = record {
    hash = (user_key, text "http://b") ∷ [];
    mine = [];
    watching = false;
    rivals = (user_key, text "http://c") ∷ [];
  };
}

update_test :
    (update_activity server json 9 user_key 0 start).1.world.hash ≡ (user_key, text "http://c") ∷ []
unfolding update_activity server helpers
update_test = refl

start-IsFree : IsFree server start
unfolding server watched
start-IsFree = λ kept. refl

-- The rival's target survives.
update_activity-Ends_example :
    Ends server
      (Updates server json user_key 0 [])
      []
      (update_activity server json 9 user_key 0 start)
unfolding server
update_activity-Ends_example =
    update_activity-Ends server json server-IsServer 9 user_key 0 start start-IsFree

-- The floor rises between the first round, which the rival aborts, and the second.
abbrev rising : ActivityFloor
rising i = some (10 + i)

delete-Ends_example :
    Ends server
      (λ prior l'. Commits server (Deletes server json user_key prior) [] l')
      []
      (delete server json 4 user_key start)
unfolding server
delete-Ends_example = delete-Ends server json server-IsServer 4 user_key start start-IsFree

decode_key-eq-ok_example : decode_key (text "/a/") ≡ ok (text "/a/")
decode_key-eq-ok_example = decode_key-eq-ok (text "/a/") refl
